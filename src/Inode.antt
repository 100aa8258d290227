-- ===== src/Inode.antt =====
-- src/virtual_fs/inode.rs: the entries of the inode table. A name or a path is a list of bytes
-- (`Arc<str>` is read as its text: no operation depends on the sharing), a `HashMap` an association
-- list, a `SystemTime` or an `Instant` a number that the caller reads from its clock, and an atomic
-- field a plain one, since each operation runs under the lock of the table.
pub mod Table
pub mod Evict
pub mod Commit
pub mod Remote
pub mod Remove
mod Tests
use hf_mount_encrypted.Base.{
  ℕ, zero, suc, ◌+◌, ◌-◌, ◌<◌, Bool, true, false, ◌||◌, not, Option, none, some, List, [], ◌∷◌,
  ◌++◌, ◌==◌, ltb, if◌then◌else◌, ◌%◌, ◌^◌,
}
use hf_mount_encrypted.Base.Eq.{text_eq}
use hf_mount_encrypted.Base.Map.{find, erase, put}
use hf_mount_encrypted.Base.Word.{saturating_add, add64}
use hf_mount_encrypted.Base.Text.{slash}

-- A name, a path, a hash or an ETag.
abbrev pub Text : Type 0
Text = List ℕ

abbrev pub root_inode : ℕ
root_inode = 1

unfoldable pub child_path : Text → Text → Text
child_path [] name = name
child_path (c ∷ cs) name = (c ∷ cs) ++ slash ∷ name

pub data InodeKind : Type 0 where
  file directory symlink : InodeKind

abbrev pub is_file : InodeKind → Bool
is_file file = true
is_file directory = false
is_file symlink = false

abbrev pub is_directory : InodeKind → Bool
is_directory file = false
is_directory directory = true
is_directory symlink = false

pub record DirChild : Type 0 where
  pub ino : ℕ
  pub name : Text

pub record EvictionState : Type 0 where
  pub nlookup : ℕ
  pub last_touched : ℕ
  pub evict_pending : Bool
  pub open_handles : ℕ

pub record InodeEntry : Type 0 where
  pub inode : ℕ
  pub parent : ℕ
  pub name : Text
  pub full_path : Text
  pub kind : InodeKind
  pub size : ℕ
  pub cipher_size : Option ℕ
  pub needs_size_probe : Bool
  pub mtime : ℕ
  pub mode : ℕ
  pub uid : ℕ
  pub gid : ℕ
  pub atime : ℕ
  pub ctime : ℕ
  pub nlink : ℕ
  pub symlink_target : Option Text
  pub xet_hash : Option Text
  pub staging_is_current : Bool
  pub etag : Option Text
  pub dirty_generation : ℕ
  pub children_loaded_at : Option ℕ
  pub children_from_remote : Bool
  pub children : List DirChild
  pub child_index : List (Text × ℕ)
  pub pending_deletes : List Text
  pub last_revalidated : Option ℕ
  pub eviction : EvictionState

abbrev pub is_none : {A : Type 0} → Option A → Bool
is_none none = true
is_none (some _) = false

abbrev pub is_some : {A : Type 0} → Option A → Bool
is_some none = false
is_some (some _) = true

abbrev pub is_nil : {A : Type 0} → List A → Bool
is_nil [] = true
is_nil (_ ∷ _) = false

unfoldable pub bump_refcount : EvictionState → EvictionState
bump_refcount s = record s { nlookup = add64 s.nlookup 1 }

-- The new state, and whether the count is 0; subtraction stops at 0 as `saturating_sub` does.
unfoldable pub drop_refcount : EvictionState → ℕ → EvictionState × Bool
drop_refcount s n = (record s { nlookup = s.nlookup - n }, s.nlookup - n == 0)

unfoldable pub is_dirty : InodeEntry → Bool
is_dirty e = ltb 0 e.dirty_generation

unfoldable pub add_child : ℕ → Text → InodeEntry → InodeEntry
add_child ino name e = record e {
  child_index = put name ino e.child_index;
  children = e.children ++ record { ino = ino; name = name } ∷ [];
}

-- `children.iter().position(|c| c.ino == ino)`, as the child found.
unfoldable pub child_at : ℕ → List DirChild → Option DirChild
child_at ino [] = none
child_at ino (c ∷ cs) = if c.ino == ino then some c else child_at ino cs

-- `children.remove(pos)` for that position.
unfoldable pub drop_child : ℕ → List DirChild → List DirChild
drop_child ino [] = []
drop_child ino (c ∷ cs) = let rest = drop_child ino cs in if c.ino == ino then cs else c ∷ rest

unfoldable pub remove_child_by_ino : ℕ → InodeEntry → InodeEntry × Option Text
remove_child_by_ino ino e = elim (child_at ino e.children) [
  | none ↦ (e, none)
  | some c ↦ (
    record e { children = drop_child ino e.children; child_index = erase c.name e.child_index },
    some c.name,
  )
]

unfoldable pub remove_child_by_name : Text → InodeEntry → InodeEntry × Option ℕ
remove_child_by_name name e = elim (find name e.child_index) [
  | none ↦ (e, none)
  | some ino ↦ (
    record e { children = drop_child ino e.children; child_index = erase name e.child_index },
    some ino,
  )
]

unfoldable pub children_loaded : InodeEntry → Bool
children_loaded e = is_some e.children_loaded_at

unfoldable pub set_dirty : InodeEntry → InodeEntry
set_dirty e = record e { dirty_generation = saturating_add e.dirty_generation 1 }

unfoldable pub clear_dirty_if : ℕ → InodeEntry → InodeEntry × Bool
clear_dirty_if snapshot_generation e =
    if e.dirty_generation == snapshot_generation
    then (record e { dirty_generation = 0 }, true)
    else (e, false)

-- What `apply_commit` does behind a successful `clear_dirty_if`.
unfoldable pub record_commit : Text → ℕ → InodeEntry → InodeEntry
record_commit hash size e = record e {
  xet_hash = some hash;
  staging_is_current = true;
  cipher_size = elim e.cipher_size [ none ↦ none | some _ ↦ some size ];
  size = elim e.cipher_size [ none ↦ size | some _ ↦ e.size ];
  pending_deletes = [];
}

-- `now` is the wall clock and `instant` the monotonic one.
unfoldable pub apply_commit : Text → ℕ → ℕ → ℕ → ℕ → InodeEntry → InodeEntry
unfolding clear_dirty_if
apply_commit hash size dirty_generation now instant e =
    let cleared = clear_dirty_if dirty_generation e in
    let committed = if cleared.1 then record_commit hash size cleared.0 else cleared.0 in
    record committed { mtime = now; ctime = now; last_revalidated = some instant }
