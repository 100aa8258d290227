-- ===== src/Inode/Remote.antt =====
-- src/virtual_fs/inode.rs: what the poll loop reads of the table, and the remote changes that it
-- writes.
pub mod Dirty
pub mod Paths
pub mod Ancestor
use hf_mount_encrypted.Base.{
  ℕ, zero, suc, ◌||◌, ◌==◌, length, Bool, true, false, ◌&&◌, not, Option, none, some, List, [], ◌∷◌,
  ltb, if◌then◌else◌,
}
use hf_mount_encrypted.Base.Eq.{number_eq, text_eq}
use hf_mount_encrypted.Base.Text.{slash}
use hf_mount_encrypted.Base.Map.{find, modify}
use hf_mount_encrypted.Inode.{
  root_inode, is_nil, Text, InodeEntry, is_file, is_directory, is_dirty, children_loaded,
}
use hf_mount_encrypted.Inode.Table.{InodeTable, get, update}

unfoldable pub dirty_inos_of : List (ℕ × InodeEntry) → List ℕ
dirty_inos_of [] = []
dirty_inos_of ((_, e) ∷ rest) =
    let others = dirty_inos_of rest in
    if is_file e.kind && is_dirty e && ltb 0 e.nlink then e.inode ∷ others else others

unfoldable pub dirty_inos : InodeTable → List ℕ
dirty_inos t = dirty_inos_of t.inodes

-- The probe of an entry, where it has a hash and a ciphertext size.
unfoldable pub size_probe : InodeEntry → Option (ℕ × Text × ℕ)
size_probe e = elim e.xet_hash [
  | none ↦ none
  | some hash ↦ elim e.cipher_size [ none ↦ none | some size ↦ some (e.inode, hash, size) ]
]

unfoldable pub size_probes_of : List (ℕ × InodeEntry) → List (ℕ × Text × ℕ)
unfolding size_probe
size_probes_of [] = []
size_probes_of ((_, e) ∷ rest) =
    let others = size_probes_of rest in
    if e.needs_size_probe
    then elim (size_probe e) [ none ↦ others | some p ↦ p ∷ others ]
    else others

unfoldable pub pending_size_probes : InodeTable → List (ℕ × Text × ℕ)
unfolding size_probes_of
pending_size_probes t = size_probes_of t.inodes

pub record FileSnapshot : Type 0 where
  pub ino : ℕ
  pub full_path : Text
  pub xet_hash : Option Text
  pub etag : Option Text
  pub size : ℕ
  pub dirty : Bool
  pub cipher_size : Option ℕ

unfoldable pub snapshot_of : InodeEntry → FileSnapshot
snapshot_of e = record {
  ino = e.inode;
  full_path = e.full_path;
  xet_hash = e.xet_hash;
  etag = e.etag;
  size = e.size;
  dirty = is_dirty e;
  cipher_size = e.cipher_size;
}

unfoldable pub file_snapshot_of : List (ℕ × InodeEntry) → List FileSnapshot
file_snapshot_of [] = []
file_snapshot_of ((_, e) ∷ rest) =
    let others = file_snapshot_of rest in if is_file e.kind then snapshot_of e ∷ others else others

unfoldable pub file_snapshot : InodeTable → List FileSnapshot
unfolding file_snapshot_of
file_snapshot t = file_snapshot_of t.inodes

-- The arguments of `update_remote_file`.
pub record RemoteFile : Type 0 where
  pub hash : Option Text
  pub etag : Option Text
  pub size : ℕ
  pub mtime : ℕ
  pub cipher_size : Option ℕ

unfoldable pub apply_remote : RemoteFile → InodeEntry → InodeEntry
apply_remote r e = record e {
  xet_hash = r.hash;
  etag = r.etag;
  size = r.size;
  cipher_size = r.cipher_size;
  mtime = r.mtime;
  staging_is_current = false;
}

unfoldable pub update_remote_file : ℕ → RemoteFile → InodeTable → InodeTable × Bool
update_remote_file ino r t = elim (get ino t) [
  | none ↦ (t, false)
  | some e ↦ if is_dirty e then (t, false) else (update ino (apply_remote r) t, true)
]

unfoldable pub invalidate_children : ℕ → InodeTable → InodeTable
invalidate_children ino t = update ino (λ e. record e { children_loaded_at = none }) t

unfoldable pub is_children_loaded : ℕ → InodeTable → Bool
is_children_loaded ino t = elim (get ino t) [ none ↦ false | some e ↦ children_loaded e ]

unfoldable pub loaded_prefixes_of : List (ℕ × InodeEntry) → List Text
loaded_prefixes_of [] = []
loaded_prefixes_of ((_, e) ∷ rest) =
    let others = loaded_prefixes_of rest in
    if is_directory e.kind && children_loaded e then e.full_path ∷ others else others

unfoldable pub loaded_dir_prefixes : InodeTable → List Text
unfolding loaded_prefixes_of
loaded_dir_prefixes t = loaded_prefixes_of t.inodes

-- `if let Some(v) = new { field = v }`
abbrev pub or_keep : {A : Type 0} → Option A → A → A
or_keep none old = old
or_keep (some a) old = a

abbrev pub or_keep_some : {A : Type 0} → Option A → Option A → Option A
or_keep_some none old = old
or_keep_some (some a) old = some a

unfoldable pub merge_remote : Option Text → Option ℕ → Option ℕ → InodeEntry → InodeEntry
merge_remote hash size mtime e = record e {
  xet_hash = or_keep_some hash e.xet_hash;
  size = or_keep size e.size;
  mtime = or_keep mtime e.mtime;
  staging_is_current = false;
}

unfoldable pub merge_remote_file :
    ℕ → Option Text → Option ℕ → Option ℕ → InodeTable → InodeTable × Bool
merge_remote_file ino hash size mtime t = elim (get ino t) [
  | none ↦ (t, false)
  | some e ↦ if is_dirty e then (t, false) else (update ino (merge_remote hash size mtime) t, true)
]

unfoldable pub get_dir_ino : Text → InodeTable → Option ℕ
get_dir_ino path t = elim (find path t.path_to_inode) [
  | none ↦ none
  | some ino ↦ elim (get ino t) [
    | none ↦ none
    | some e ↦ if is_directory e.kind then some e.inode else none
  ]
]

unfoldable pub has_slash : Text → Bool
has_slash [] = false
has_slash (c ∷ cs) = c == slash || has_slash cs

-- `rsplit_once('/').map_or("", |(parent, _)| parent)`
unfoldable pub parent_path : Text → Text
unfolding has_slash
parent_path [] = []
parent_path (c ∷ cs) = let rest = parent_path cs in if has_slash cs then c ∷ rest else []

-- The loop of `nearest_dir_ancestor`, `none` where the fuel runs out.
unfoldable pub ancestor_loop : ℕ → Text → InodeTable → Option (ℕ × Text)
ancestor_loop zero path t = none
ancestor_loop (suc fuel) path t =
    let ancestor = parent_path path in
    let next = ancestor_loop fuel ancestor t in
    elim (get_dir_ino ancestor t) [
      | some dir_ino ↦ some (dir_ino, ancestor)
      | none ↦ if is_nil ancestor then some (root_inode, []) else next
    ]

unfoldable pub nearest_dir_ancestor : Text → InodeTable → Option (ℕ × Text)
nearest_dir_ancestor path t = ancestor_loop (suc (length path)) path t
