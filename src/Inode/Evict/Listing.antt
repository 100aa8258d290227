-- ===== src/Inode/Evict/Listing.antt =====
-- What an eviction leaves of the entries that stay: everything but their listings. And what the
-- tests of an eviction say of an entry.
use Prim.Native.Nat.{ℕ}
use mathlib.Core.Option
use hf_mount_encrypted.Base.{
  ◌≡◌, refl, ap, true, false, Option, none, some, List, [], ◌∷◌, ◌==◌, if◌then◌else◌, arith,
  Bool-cases, Option-cases, inl, inr, ◌≢◌,
}
use hf_mount_encrypted.Base.Eq.{number_eq, text_eq}
use hf_mount_encrypted.Base.Map.{find, erase, modify, find-erase, find-modify}
use hf_mount_encrypted.Inode.{
  InodeEntry, InodeKind, is_dirty, is_nil, is_file, file, directory, symlink, remove_child_by_ino,
  child_at,
}
use hf_mount_encrypted.Inode.Table.{InodeTable, get}
use hf_mount_encrypted.Inode.Evict.{drop_index, drop_listing, forget_child, is_batch_safe, is_safe}

-- An entry without its listing, which an eviction of a child changes.
unfoldable pub bare : InodeEntry → InodeEntry
bare e = record e { children = []; child_index = []; children_loaded_at = none }

-- The entry of an inode without its listing.
unfoldable pub bare_in : List (ℕ × InodeEntry) → ℕ → Option InodeEntry
bare_in l x = Option.map bare (find x l)

-- `f` changes the listing at most.
abbrev pub KeepsBare : (InodeEntry → InodeEntry) → Type 0
KeepsBare f = (e : InodeEntry) → bare (f e) ≡ bare e

pub bare_in-modify :
    (p x : ℕ) (f : InodeEntry → InodeEntry) (l : List (ℕ × InodeEntry))
    → KeepsBare f
    → bare_in (modify p f l) x ≡ bare_in l x
unfolding bare_in
bare_in-modify p x f l keeps = rw (find-modify p x f l) (elim (Option-cases (find x l)) [
  | inl e ↦ rw e (elim (Bool-cases (p == x)) [ inl h ↦ rw h | inr h ↦ rw h ])
  | inr (v, e) ↦
      rw e (elim (Bool-cases (p == x)) [ inl h ↦ rw h (ap some (keeps v)) | inr h ↦ rw h ])
])

pub bare_in-erase :
    (i x : ℕ) (l : List (ℕ × InodeEntry))
    → bare_in (erase i l) x ≡ (if x == i then none else bare_in l x)
unfolding bare_in
bare_in-erase i x l = rw (find-erase i x l) (elim (Bool-cases (x == i)) [
  | inl h ↦ let same : (i == x) ≡ true = ground (arith, h) in rw h (rw same refl)
  | inr h ↦ let same : (i == x) ≡ false = ground (arith, h) in rw h (rw same refl)
])

unfoldable pub bare_at : InodeTable → ℕ → Option InodeEntry
bare_at t x = bare_in t.inodes x

pub drop_index-KeepsBare : (name : List ℕ) → KeepsBare (drop_index name)
unfolding drop_index bare
drop_index-KeepsBare name e = refl

pub drop_listing-KeepsBare : (set : List ℕ) → KeepsBare (drop_listing set)
unfolding drop_listing bare
drop_listing-KeepsBare set e = refl

pub bare_at-none : (t : InodeTable) (i : ℕ) → get i t ≡ none → bare_at t i ≡ none
unfolding bare_at bare_in get
bare_at-none t i e = rw e

pub bare_at-some :
    (t : InodeTable) (i : ℕ) (v : InodeEntry) → get i t ≡ some v → bare_at t i ≡ some (bare v)
unfolding bare_at bare_in get
bare_at-some t i v e = rw e

remove_child_by_ino_lem : (ino : ℕ) (e : InodeEntry) → bare (remove_child_by_ino ino e).0 ≡ bare e
unfolding bare remove_child_by_ino
remove_child_by_ino_lem ino e = elim (Option-cases (child_at ino e.children)) [
  | inl h ↦ rw (h, remove_child_by_ino) refl
  | inr (c, h) ↦ rw (h, remove_child_by_ino) refl
]

pub forget_child-KeepsBare : (ino : ℕ) → KeepsBare (forget_child ino)
unfolding forget_child bare
forget_child-KeepsBare ino e = unfold bare in remove_child_by_ino_lem ino e

is_file_lem : (k : InodeKind) → is_file k ≡ true → k ≡ file
is_file_lem file h = refl
is_file_lem directory h = cc
is_file_lem symlink h = cc

is_nil_lem : {A : Type 0} (l : List A) → is_nil l ≡ true → l ≡ []
is_nil_lem [] h = refl
is_nil_lem (x ∷ l) h = cc

-- A linked regular file that has no unflushed data and no pending rename.
unfoldable pub IsClean : InodeEntry → Type 0
IsClean e = (e.kind ≡ file) × (e.dirty_generation ≡ 0) × (e.pending_deletes ≡ []) × (e.nlink ≢ 0)

pub is_safe-IsClean : (e : InodeEntry) → is_safe e ≡ true → IsClean e × (e.eviction.nlookup ≡ 0)
unfolding is_safe is_dirty IsClean
is_safe-IsClean e h = (
  (
    is_file_lem e.kind (ground (arith, h)),
    ground (arith, h),
    is_nil_lem e.pending_deletes (ground (arith, h)),
    λ z. ground (arith, h, z),
  ),
  ground (arith, h),
)

pub is_batch_safe-IsClean :
    (e : InodeEntry)
    → is_batch_safe e ≡ true
    → IsClean e × (e.eviction.nlookup ≡ 0) × (e.eviction.open_handles ≡ 0)
unfolding is_batch_safe is_dirty IsClean
is_batch_safe-IsClean e h = (
  (
    is_file_lem e.kind (ground (arith, h)),
    ground (arith, h),
    is_nil_lem e.pending_deletes (ground (arith, h)),
    λ z. ground (arith, h, z),
  ),
  ground (arith, h),
  ground (arith, h),
)

-- No directory or link, nothing unflushed, no pending rename, a link that is left, no reference of
-- the kernel and no open file handle.
unfoldable pub IsEvictable : InodeEntry → Type 0
IsEvictable e = IsClean e × (e.eviction.nlookup ≡ 0) × (e.eviction.open_handles ≡ 0)

pub is_batch_safe-IsEvictable : (e : InodeEntry) → is_batch_safe e ≡ true → IsEvictable e
unfolding IsEvictable
is_batch_safe-IsEvictable e h = is_batch_safe-IsClean e h

pub IsEvictable-is_batch_safe : (e : InodeEntry) → IsEvictable e → is_batch_safe e ≡ true
unfolding is_batch_safe is_dirty IsClean IsEvictable
IsEvictable-is_batch_safe e (((kind, clean, pending, linked), lookups, handles)) =
    rw (kind, pending) (ground (arith, clean, linked, lookups, handles))
