-- ===== src/Inode/Evict.antt =====
-- src/virtual_fs/inode.rs: the choice of entries to evict, and the evictions.
pub mod Listing
pub mod Groups
pub mod Outcomes
pub mod Parents
pub mod Lasting
pub mod Freed
pub mod Unlisted
pub mod Retained
pub mod Batch
pub mod Single
pub mod Oldest
use hf_mount_encrypted.Base.{
  ℕ, ◌-◌, Bool, true, false, ◌&&◌, ◌||◌, not, Option, none, some, List, [], ◌∷◌, ◌++◌, ◌==◌, ltb,
  leb, if◌then◌else◌, length,
}
use hf_mount_encrypted.Base.Eq.{number_eq, text_eq}
use hf_mount_encrypted.Base.Map.{find, erase, modify}
use hf_mount_encrypted.Inode.{
  Text, is_file, is_nil, DirChild, InodeEntry, is_dirty, remove_child_by_ino,
}
use hf_mount_encrypted.Inode.Table.{InodeTable, get, update}

-- A clean regular file with a link and no pending renames, which no file handle refers to.
unfoldable pub is_idle : InodeEntry → Bool
unfolding is_dirty
is_idle e =
    is_file e.kind
    && not (e.nlink == 0)
    && not (is_dirty e)
    && is_nil e.pending_deletes
    && not (ltb 0 e.eviction.open_handles)

-- A key of the LRU order with its inode.
abbrev pub Stamp : Type 0
Stamp = ℕ × ℕ

-- The order of the pairs.
abbrev pub stamp_le : Stamp → Stamp → Bool
stamp_le (t, i) (u, j) = ltb t u || (t == u && leb i j)

-- A `BinaryHeap` is kept as its members in ascending order, so that `pop` takes the last one.
unfoldable pub heap_push : Stamp → List Stamp → List Stamp
heap_push x [] = x ∷ []
heap_push x (y ∷ ys) = let rest = heap_push x ys in if stamp_le x y then x ∷ y ∷ ys else y ∷ rest

unfoldable pub heap_pop : List Stamp → List Stamp
heap_pop [] = []
heap_pop (x ∷ []) = []
heap_pop (x ∷ y ∷ ys) = x ∷ heap_pop (y ∷ ys)

-- `if heap.len() > max { heap.pop(); }` behind the push.
unfoldable pub heap_keep : ℕ → Stamp → List Stamp → List Stamp
unfolding heap_push heap_pop
heap_keep max x heap =
    let pushed = heap_push x heap in if ltb max (length pushed) then heap_pop pushed else pushed

abbrev pub stamp : InodeEntry → Stamp
stamp e = (e.eviction.last_touched, e.inode)

-- The loop over `inodes.values()`.
unfoldable pub collect_oldest : ℕ → List (ℕ × InodeEntry) → List Stamp → List Stamp
collect_oldest max [] heap = heap
collect_oldest max ((_, e) ∷ rest) heap =
    collect_oldest max rest (if is_idle e then heap_keep max (stamp e) heap else heap)

-- The stable `sort_by_key` on the first component.
unfoldable pub sorted_insert : Stamp → List Stamp → List Stamp
sorted_insert x [] = x ∷ []
sorted_insert x (y ∷ ys) =
    let rest = sorted_insert x ys in if leb x.0 y.0 then x ∷ y ∷ ys else y ∷ rest

unfoldable pub sort_by_touch : List Stamp → List Stamp
unfolding sorted_insert
sort_by_touch [] = []
sort_by_touch (x ∷ xs) = sorted_insert x (sort_by_touch xs)

-- `filter_map` over the picks: the inode with its parent and its name.
unfoldable pub resolve : InodeTable → List Stamp → List (ℕ × ℕ × Text)
resolve t [] = []
resolve t ((_, ino) ∷ picks) = elim (get ino t) [
  | none ↦ resolve t picks
  | some e ↦ (ino, e.parent, e.name) ∷ resolve t picks
]

unfoldable pub lru_candidates : ℕ → InodeTable → List (ℕ × ℕ × Text)
lru_candidates max t =
    if max == 0 then [] else resolve t (sort_by_touch (collect_oldest max t.inodes []))

unfoldable pub idle_stamps : List (ℕ × InodeEntry) → List Stamp
idle_stamps [] = []
idle_stamps ((_, e) ∷ rest) =
    let others = idle_stamps rest in if is_idle e then stamp e ∷ others else others

unfoldable pub second : List Stamp → List ℕ
second [] = []
second ((_, ino) ∷ picks) = ino ∷ second picks

unfoldable pub staging_gc_candidates : InodeTable → List ℕ
staging_gc_candidates t = second (sort_by_touch (idle_stamps t.inodes))

-- The test of `evict_if_safe`, which leaves the file handles to its caller.
unfoldable pub is_safe : InodeEntry → Bool
unfolding is_dirty
is_safe e =
    is_file e.kind
    && e.eviction.nlookup == 0
    && not (is_dirty e)
    && is_nil e.pending_deletes
    && ltb 0 e.nlink

-- What the parent loses.
unfoldable pub forget_child : ℕ → InodeEntry → InodeEntry
unfolding remove_child_by_ino
forget_child ino parent = record ((remove_child_by_ino ino parent).0) { children_loaded_at = none }

-- `remove` of the entry, of its path and of its parent's child.
unfoldable pub evict : ℕ → InodeEntry → InodeTable → InodeTable
evict ino entry t = record t {
  inodes = modify entry.parent (forget_child ino) (erase ino t.inodes);
  path_to_inode = erase entry.full_path t.path_to_inode;
}

unfoldable pub evict_if_safe : ℕ → InodeTable → InodeTable × Bool
unfolding evict
evict_if_safe ino t = elim (get ino t) [
  | none ↦ (t, false)
  | some e ↦ if is_safe e then (evict ino e t, true) else (t, false)
]

-- The test of the batch, which looks at the file handles too.
unfoldable pub is_batch_safe : InodeEntry → Bool
unfolding is_dirty
is_batch_safe e =
    is_file e.kind
    && e.eviction.nlookup == 0
    && e.eviction.open_handles == 0
    && not (is_dirty e)
    && is_nil e.pending_deletes
    && ltb 0 e.nlink

unfoldable pub mem : ℕ → List ℕ → Bool
mem x [] = false
mem x (y ∷ ys) = x == y || mem x ys

-- `HashSet::insert`
unfoldable pub set_insert : ℕ → List ℕ → List ℕ
unfolding mem
set_insert x s = if mem x s then s else x ∷ s

-- `by_parent.entry(parent).or_default().insert(ino)`
unfoldable pub group_insert : ℕ → ℕ → List (ℕ × List ℕ) → List (ℕ × List ℕ)
group_insert parent ino by_parent = elim (find parent by_parent) [
  | none ↦ (parent, ino ∷ []) ∷ by_parent
  | some _ ↦ modify parent (set_insert ino) by_parent
]

-- The first loop of `evict_batch_if_safe` and its body.
unfoldable pub group_eligible_one : InodeTable → ℕ → List (ℕ × List ℕ) → List (ℕ × List ℕ)
group_eligible_one t ino by_parent = elim (get ino t) [
  | none ↦ by_parent
  | some e ↦ if is_batch_safe e then group_insert e.parent ino by_parent else by_parent
]

unfoldable pub group_eligible : InodeTable → List ℕ → List (ℕ × List ℕ) → List (ℕ × List ℕ)
group_eligible t [] by_parent = by_parent
group_eligible t (ino ∷ inos) by_parent = group_eligible t inos (group_eligible_one t ino by_parent)

unfoldable pub drop_index : Text → InodeEntry → InodeEntry
drop_index name parent = record parent { child_index = erase name parent.child_index }

-- The body of the second loop, with the inodes that it pushes on `evicted`.
unfoldable pub evict_member : ℕ → ℕ → InodeTable → InodeTable × List ℕ
evict_member parent_ino ino t = elim (get ino t) [
  | none ↦ (t, [])
  | some entry ↦ (
    record t {
      inodes = modify parent_ino (drop_index entry.name) (erase ino t.inodes);
      path_to_inode = erase entry.full_path t.path_to_inode;
    },
    ino ∷ [],
  )
]

unfoldable pub evict_set : ℕ → List ℕ → InodeTable → InodeTable × List ℕ
evict_set parent_ino [] t = (t, [])
evict_set parent_ino (ino ∷ inos) t =
    let first = evict_member parent_ino ino t in
    let rest = evict_set parent_ino inos first.0 in (rest.0, first.1 ++ rest.1)

unfoldable pub evict_groups : List (ℕ × List ℕ) → InodeTable → InodeTable × List ℕ
evict_groups [] t = (t, [])
evict_groups ((parent_ino, inos) ∷ groups) t =
    let first = evict_set parent_ino inos t in
    let rest = evict_groups groups first.0 in (rest.0, first.1 ++ rest.1)

-- `children.retain(|c| !evicted_set.contains(&c.ino))`
unfoldable pub retain_others : List ℕ → List DirChild → List DirChild
retain_others set [] = []
retain_others set (c ∷ cs) =
    let rest = retain_others set cs in if mem c.ino set then rest else c ∷ rest

unfoldable pub drop_listing : List ℕ → InodeEntry → InodeEntry
drop_listing set parent = record parent {
  children = retain_others set parent.children;
  children_loaded_at = none;
}

-- The third loop.
unfoldable pub drop_listings : List (ℕ × List ℕ) → InodeTable → InodeTable
drop_listings [] t = t
drop_listings ((parent_ino, inos) ∷ groups) t =
    drop_listings groups (update parent_ino (drop_listing inos) t)

unfoldable pub evict_batch_if_safe : List ℕ → InodeTable → InodeTable × List ℕ
evict_batch_if_safe inos t =
    let by_parent = group_eligible t inos [] in
    let evicted = evict_groups by_parent t in (drop_listings by_parent evicted.0, evicted.1)
