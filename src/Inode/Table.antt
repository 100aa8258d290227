-- ===== src/Inode/Table.antt =====
-- src/virtual_fs/inode.rs: the inode table, its lookups, `insert` and the counters that eviction
-- reads.
pub mod Insert
use hf_mount_encrypted.Base.{
  ℕ, ◌+◌, ◌-◌, ◌%◌, ◌^◌, Bool, true, false, not, Option, none, some, List, [], ◌∷◌, ◌==◌, ltb,
  if◌then◌else◌,
}
use hf_mount_encrypted.Base.Eq.{number_eq, text_eq}
use hf_mount_encrypted.Base.Map.{find, erase, put, modify}
use hf_mount_encrypted.Base.Word.{add64}
use hf_mount_encrypted.Inode.{
  Text, root_inode, InodeKind, directory, is_directory, EvictionState, InodeEntry, add_child,
  bump_refcount, drop_refcount, is_dirty, children_loaded,
}

pub record InodeTable : Type 0 where
  pub inodes : List (ℕ × InodeEntry)
  pub path_to_inode : List (Text × ℕ)
  pub next_inode : ℕ
  pub touch_counter : ℕ
  pub touch_enabled : Bool

abbrev pub no_eviction : EvictionState
no_eviction = record { nlookup = 0; last_touched = 0; evict_pending = false; open_handles = 0 }

-- The fields that `new` and `insert` set alike.
abbrev pub fresh_entry : ℕ → ℕ → Text → Text → InodeKind → InodeEntry
fresh_entry inode parent name full_path kind = record {
  inode = inode;
  parent = parent;
  name = name;
  full_path = full_path;
  kind = kind;
  size = 0;
  cipher_size = none;
  needs_size_probe = false;
  mtime = 0;
  mode = 0;
  uid = 0;
  gid = 0;
  atime = 0;
  ctime = 0;
  nlink = 1;
  symlink_target = none;
  xet_hash = none;
  staging_is_current = false;
  etag = none;
  dirty_generation = 0;
  children_loaded_at = none;
  children_from_remote = false;
  children = [];
  child_index = [];
  pending_deletes = [];
  last_revalidated = none;
  eviction = no_eviction;
}

-- 493 is 0o755; `UNIX_EPOCH` is 0.
abbrev pub root_entry : InodeEntry
root_entry = record (fresh_entry root_inode root_inode [] [] directory) { mode = 493; nlink = 2 }

unfoldable pub new : Bool → InodeTable
new track_touches = record {
  inodes = (root_inode, root_entry) ∷ [];
  path_to_inode = ([], root_inode) ∷ [];
  next_inode = 2;
  touch_counter = 0;
  touch_enabled = track_touches;
}

unfoldable pub get : ℕ → InodeTable → Option InodeEntry
get ino t = find ino t.inodes

-- `if let Some(e) = inodes.get_mut(&ino) { *e = f(e) }`
unfoldable pub update : ℕ → (InodeEntry → InodeEntry) → InodeTable → InodeTable
update ino f t = record t { inodes = modify ino f t.inodes }

unfoldable pub update_eviction : (EvictionState → EvictionState) → InodeEntry → InodeEntry
update_eviction f e = record e { eviction = f e.eviction }

unfoldable pub bump_nlookup : ℕ → InodeTable → InodeTable
bump_nlookup ino t = update ino (update_eviction bump_refcount) t

unfoldable pub drop_nlookup : ℕ → ℕ → InodeTable → InodeTable × Bool
drop_nlookup ino n t = elim (get ino t) [
  | none ↦ (t, false)
  | some e ↦
      (update ino (update_eviction (λ s. (drop_refcount s n).0)) t, (drop_refcount e.eviction n).1)
]

-- `fetch_add` and `fetch_sub` on a `u32` wrap.
unfoldable pub bump_open_handles : ℕ → InodeTable → InodeTable
bump_open_handles ino t =
    update ino (update_eviction (λ s. record s { open_handles = (s.open_handles + 1) % 2 ^ 32 })) t

unfoldable pub drop_open_handles : ℕ → InodeTable → InodeTable
drop_open_handles ino t =
    update ino
      (update_eviction (λ s. record s { open_handles = (s.open_handles + (2 ^ 32 - 1)) % 2 ^ 32 }))
      t

unfoldable pub has_open_handles : ℕ → InodeTable → Bool
has_open_handles ino t = elim (get ino t) [ none ↦ false | some e ↦ ltb 0 e.eviction.open_handles ]

unfoldable pub touch : ℕ → InodeTable → InodeTable
touch ino t = if not t.touch_enabled then t else elim (get ino t) [
  | none ↦ t
  | some e ↦ record t {
    touch_counter = add64 t.touch_counter 1;
    inodes =
        modify ino (update_eviction (λ s. record s { last_touched = t.touch_counter })) t.inodes;
  }
]

unfoldable pub enable_touch_tracking : InodeTable → InodeTable
enable_touch_tracking t = record t { touch_enabled = true }

unfoldable pub mark_evict_pending : ℕ → InodeTable → InodeTable
mark_evict_pending ino t = update ino (update_eviction (λ s. record s { evict_pending = true })) t

unfoldable pub take_evict_pending : ℕ → InodeTable → InodeTable × Bool
take_evict_pending ino t = elim (get ino t) [
  | none ↦ (t, false)
  | some e ↦ (
    update ino (update_eviction (λ s. record s { evict_pending = false })) t,
    e.eviction.evict_pending,
  )
]

unfoldable pub get_by_path : Text → InodeTable → Option InodeEntry
get_by_path path t = elim (find path t.path_to_inode) [ none ↦ none | some ino ↦ get ino t ]

unfoldable pub lookup_child : ℕ → Text → InodeTable → Option InodeEntry
lookup_child parent name t = elim (get parent t) [
  | none ↦ none
  | some parent_entry ↦ elim (find name parent_entry.child_index) [
    | none ↦ none
    | some ino ↦ get ino t
  ]
]

-- The arguments of `insert`.
pub record NewInode : Type 0 where
  pub parent : ℕ
  pub name : Text
  pub full_path : Text
  pub kind : InodeKind
  pub size : ℕ
  pub mtime : ℕ
  pub xet_hash : Option Text
  pub mode : ℕ
  pub uid : ℕ
  pub gid : ℕ

unfoldable pub new_entry : NewInode → ℕ → ℕ → ℕ → ℕ → InodeEntry
new_entry a inode touch_seq now instant =
    record (fresh_entry inode a.parent a.name a.full_path a.kind) {
      size = a.size;
      mtime = a.mtime;
      mode = a.mode;
      uid = a.uid;
      gid = a.gid;
      atime = a.mtime;
      ctime = now;
      nlink = if is_directory a.kind then 2 else 1;
      xet_hash = a.xet_hash;
      last_revalidated = some instant;
      eviction = record no_eviction { last_touched = touch_seq };
    }

-- The parent's half of `insert`: the child, and the link of its "..".
unfoldable pub attach : ℕ → NewInode → InodeEntry → InodeEntry
attach inode a parent_entry =
    let e = add_child inode a.name parent_entry in
    if is_directory a.kind then record e { nlink = (e.nlink + 1) % 2 ^ 32 } else e

-- The debug assertions, which a release build drops, are left out.
unfoldable pub insert : NewInode → ℕ → ℕ → InodeTable → InodeTable × ℕ
insert a now instant t = elim (find a.full_path t.path_to_inode) [
  | some existing_ino ↦
      (update existing_ino (λ e. record e { last_revalidated = some instant }) t, existing_ino)
  | none ↦
      let inode = t.next_inode in
      let entry = new_entry a inode t.touch_counter now instant in
      (
        record t {
          next_inode = add64 t.next_inode 1;
          touch_counter = add64 t.touch_counter 1;
          inodes = modify a.parent (attach inode a) (put inode entry t.inodes);
          path_to_inode = put a.full_path inode t.path_to_inode;
        },
        inode,
      )
]

unfoldable pub remove_path : Text → InodeTable → InodeTable
remove_path path t = record t { path_to_inode = erase path t.path_to_inode }

unfoldable pub insert_path : Text → ℕ → InodeTable → InodeTable
insert_path path inode t = record t { path_to_inode = put path inode t.path_to_inode }
