-- ===== src/FileCache.antt =====
-- src/file_cache.rs: the index of the whole-file cache. The calls of the file system are arguments:
-- what a directory holds, whether a file opens, and what a download, its `stat` and its rename give.
-- The lock of the index makes each operation one step; the removal of files from the disk is left
-- out, but for the names of those that an eviction removes.
pub mod Account
pub mod Order
pub mod Evict
pub mod Budget
mod Tests
use hf_mount_encrypted.Base.{
  ℕ, ◌+◌, ◌-◌, ◌≤◌, Bool, true, false, ◌&&◌, not, Option, none, some, List, [], ◌∷◌, max, ltb, leb,
  ◌==◌, if◌then◌else◌,
}
use hf_mount_encrypted.Base.Word.{add64, sub64, saturating_add}
use hf_mount_encrypted.Base.Results.{Result, ok, err}
use hf_mount_encrypted.Base.Eq.{text_eq}
use hf_mount_encrypted.Base.Map.{find, erase, put, modify}

abbrev pub Text : Type 0
Text = List ℕ

pub record CacheItem : Type 0 where
  pub size : ℕ
  pub last_access : ℕ

pub record State : Type 0 where
  pub items : List (Text × CacheItem)
  pub total_bytes : ℕ

pub record FileCache : Type 0 where
  pub capacity : ℕ
  pub state : State
  pub clock : ℕ

-- A file that the scan finds: its name, its size, and its time in seconds.
pub record FoundFile : Type 0 where
  pub name : Text
  pub found_size : ℕ
  pub tick : ℕ

-- The loop of `scan_existing` over the files of all shards.
unfoldable pub scan_files : List FoundFile → State → ℕ → State × ℕ
scan_files [] s max_tick = (s, max_tick)
scan_files (f ∷ fs) s max_tick =
    scan_files fs
      (record {
        items = put f.name (record { size = f.found_size; last_access = f.tick }) s.items;
        total_bytes = add64 s.total_bytes f.found_size;
      })
      (if ltb max_tick f.tick then f.tick else max_tick)

unfoldable pub scan_existing : List FoundFile → State × ℕ
scan_existing files = scan_files files (record { items = []; total_bytes = 0 }) 0

unfoldable pub new : ℕ → List FoundFile → FileCache
new capacity files =
    let scanned = scan_existing files in
    record { capacity = capacity; state = scanned.0; clock = saturating_add scanned.1 1 }

-- `next_tick`: the tick, and the clock behind it.
unfoldable pub next_tick : FileCache → ℕ × FileCache
next_tick c = (c.clock, record c { clock = add64 c.clock 1 })

abbrev pub is_empty : Text → Bool
is_empty [] = true
is_empty (_ ∷ _) = false

abbrev pub contains_key : Text → State → Bool
contains_key hash s = elim (find hash s.items) [ none ↦ false | some _ ↦ true ]

unfoldable pub contains : Text → FileCache → Bool
contains hash c = if is_empty hash then false else contains_key hash c.state

-- `items.remove(hash)` with the total that follows it; `saturating_sub` is the difference of ℕ.
unfoldable pub total_without : Option CacheItem → ℕ → ℕ
total_without none total = total
total_without (some item) total = total - item.size

unfoldable pub remove_item : Text → State → State
remove_item hash s = record {
  items = erase hash s.items;
  total_bytes = total_without (find hash s.items) s.total_bytes;
}

unfoldable pub forget : Text → FileCache → FileCache
forget hash c = record c { state = remove_item hash c.state }

-- A hit moves the entry to the front of the order.
unfoldable pub touch : Text → FileCache → FileCache
touch hash c =
    let ticked = next_tick c in
    record ticked.1 {
      state = record c.state {
        items = modify hash (λ item. record item { last_access = ticked.0 }) c.state.items;
      };
    }

unfoldable pub open_found : Option CacheItem → Bool → Text → FileCache → FileCache × Bool
open_found none opens hash c = (c, false)
open_found (some _) true hash c = (touch hash c, true)
open_found (some _) false hash c = (forget hash (touch hash c), false)

-- Whether the open on the disk succeeds is `opens`; the result says whether there is a file.
unfoldable pub try_open : Bool → Text → FileCache → FileCache × Bool
try_open opens hash c =
    if is_empty hash then (c, false) else open_found (find hash c.state.items) opens hash c

-- `sort_by_key` by the last access, which keeps the order of equals.
unfoldable pub insert_sorted : Text × CacheItem → List (Text × CacheItem) → List (Text × CacheItem)
insert_sorted e [] = e ∷ []
insert_sorted e (f ∷ fs) =
    let rest = insert_sorted e fs in
    if leb e.1.last_access f.1.last_access then e ∷ f ∷ fs else f ∷ rest

unfoldable pub sort_entries : List (Text × CacheItem) → List (Text × CacheItem)
sort_entries [] = []
sort_entries (e ∷ es) = insert_sorted e (sort_entries es)

-- The loop that picks the victims.
unfoldable pub pick_victims : ℕ → ℕ → ℕ → List (Text × CacheItem) → List Text
pick_victims total capacity freed [] = []
pick_victims total capacity freed (e ∷ es) =
    let rest = pick_victims total capacity (add64 freed e.1.size) es in
    if leb (sub64 total freed) capacity then [] else e.0 ∷ rest

unfoldable pub remove_items : List Text → State → State
remove_items [] s = s
remove_items (hash ∷ victims) s = remove_items victims (remove_item hash s)

-- The state behind the eviction, and the hashes of the files to remove.
unfoldable pub evict_locked : ℕ → State → State × List Text
evict_locked capacity s =
    let victims = pick_victims s.total_bytes capacity 0 (sort_entries s.items) in
    if leb s.total_bytes capacity then (s, []) else (remove_items victims s, victims)

-- The entry is in the index, in place of one of the same hash.
unfoldable pub insert_item : Text → CacheItem → State → State
insert_item hash item s = record {
  items = put hash item s.items;
  total_bytes = add64 (total_without (find hash s.items) s.total_bytes) item.size;
}

-- The step of `populate_inner` under the lock of the index.
unfoldable pub publish : Text → ℕ → FileCache → FileCache × List Text
publish hash actual_size c =
    let ticked = next_tick c in
    let item : CacheItem = record { size = actual_size; last_access = ticked.0 } in
    let evicted = evict_locked c.capacity (insert_item hash item c.state) in
    (record ticked.1 { state = evicted.0 }, evicted.1)

-- What the disk and the network do in one run of `populate_inner`: `mkdir`, the download, the size
-- of what it left, and the rename.
pub record Disk : Type 0 where
  pub mkdir : Bool
  pub fetched : Bool
  pub stat : Option ℕ
  pub renamed : Bool

pub data PopulateError : Type 0 where
  io fetch_failed size_mismatch : PopulateError

abbrev pub is_other : Option ℕ → ℕ → Bool
is_other none actual = false
is_other (some expected) actual = not (actual == expected)

unfoldable pub finish :
    Text → Option ℕ → Disk → ℕ → FileCache → FileCache × Result PopulateError (List Text)
finish hash expected disk actual c =
    let published = publish hash actual c in
    if is_other expected actual
    then (c, err size_mismatch)
    else if ltb c.capacity actual
    then (c, ok [])
    else if disk.renamed
    then (published.0, ok published.1)
    else (c, err io)

unfoldable pub populate_inner :
    Text → Option ℕ → Disk → FileCache → FileCache × Result PopulateError (List Text)
populate_inner hash expected disk c =
    if not disk.mkdir
    then (c, err io)
    else if not disk.fetched
    then (c, err fetch_failed)
    else elim disk.stat [ none ↦ (c, err io) | some actual ↦ finish hash expected disk actual c ]

abbrev pub too_large : Option ℕ → ℕ → Bool
too_large none capacity = false
too_large (some expected) capacity = ltb capacity expected

-- The tests of `populate` before a download.
unfoldable pub populate :
    Text → Option ℕ → Disk → FileCache → FileCache × Result PopulateError (List Text)
populate hash expected disk c =
    if is_empty hash
    then (c, ok [])
    else if too_large expected c.capacity
    then (c, ok [])
    else if contains hash c
    then (c, ok [])
    else populate_inner hash expected disk c
