-- ===== src/Poll/Diff.antt =====
-- src/virtual_fs/poll.rs, `apply_poll_diff` and `poll_round`: a listing of the loaded directories
-- against the table. The table is locked twice, for the snapshot and for the changes; what happens
-- between is in the second table. `parse_time` is `mtime_from_str`, which the crate chrono reads.
pub mod Round
pub mod Phases
pub mod Unflushed
use hf_mount_encrypted.Base.{
  ℕ, Bool, true, false, ◌&&◌, ◌||◌, not, Option, none, some, List, [], ◌∷◌, ◌++◌, if◌then◌else◌,
}
use hf_mount_encrypted.Base.Eq.{text_eq, number_eq, ◌==◌}
use hf_mount_encrypted.Base.Map.{find, put}
use hf_mount_encrypted.Base.Text.{bytes, slash}
use hf_mount_encrypted.Inode.{Text, InodeEntry, is_nil, is_some}
use hf_mount_encrypted.Inode.Table.{InodeTable, get, update, get_by_path}
use hf_mount_encrypted.Inode.Remote.{
  FileSnapshot, file_snapshot, RemoteFile, update_remote_file, parent_path, nearest_dir_ancestor,
  is_children_loaded, invalidate_children, or_keep,
}
use hf_mount_encrypted.Poll.{Invalidations, pages, queue_file_invalidation, remove_remote_file}
use hf_mount_encrypted.Poll.Changes.{mem, invalidate_all, all_pages}

pub record TreeEntry : Type 0 where
  pub path : Text
  pub entry_type : Text
  pub size : Option ℕ
  pub xet_hash : Option Text
  pub oid : Option Text
  pub mtime : Option Text

abbrev pub mem_text : Text → List Text → Bool
mem_text x [] = false
mem_text x (y ∷ ys) = x == y || mem_text x ys

abbrev pub option_same : Option Text → Option Text → Bool
option_same none none = true
option_same none (some y) = false
option_same (some x) none = false
option_same (some x) (some y) = x == y

-- `remote_map`: the files of the listing by their path, the last of two.
unfoldable pub remote_map_of : List TreeEntry → List (Text × TreeEntry) → List (Text × TreeEntry)
remote_map_of [] m = m
remote_map_of (e ∷ es) m =
    remote_map_of es (if e.entry_type == bytes "file" then put e.path e m else m)

pub record Update : Type 0 where
  pub ino : ℕ
  pub remote : RemoteFile
  pub needs_size_probe : Bool

-- Whether the hash or, where neither side has one, the ETag is another.
unfoldable pub is_changed : FileSnapshot → TreeEntry → Bool
is_changed f r =
    if is_some f.xet_hash || is_some r.xet_hash
    then not (option_same r.xet_hash f.xet_hash)
    else not (option_same r.oid f.etag)

abbrev or_size : Option ℕ → ℕ → ℕ
or_size none size = size
or_size (some object) size = object

unfoldable pub is_updated : FileSnapshot → TreeEntry → Bool
is_updated f r = is_changed f r || not (or_keep r.size 0 == or_size f.cipher_size f.size)

module _ (parse_time : Text → ℕ) (now : ℕ) where
  abbrev time_of : Option Text → ℕ
  time_of none = now
  time_of (some text) = parse_time text

  -- The sizes, for an encrypted file and for a plain one.
  abbrev new_size : Option ℕ → ℕ → ℕ → ℕ
  new_size none local remote = remote
  new_size (some _) local remote = local

  abbrev new_cipher_size : Option ℕ → ℕ → Option ℕ
  new_cipher_size none remote = none
  new_cipher_size (some _) remote = some remote

  unfoldable pub update_of : FileSnapshot → TreeEntry → Update
  update_of f r = record {
    ino = f.ino;
    remote = record {
      hash = r.xet_hash;
      etag = r.oid;
      size = new_size f.cipher_size f.size (or_keep r.size 0);
      mtime = time_of r.mtime;
      cipher_size = new_cipher_size f.cipher_size (or_keep r.size 0);
    };
    needs_size_probe = is_some f.cipher_size;
  }

  -- Phase 1: the updates and the deletions.
  unfoldable pub diff :
      List (Text × TreeEntry) → List Text → List FileSnapshot → List Update × List ℕ
  diff remote_map polled [] = ([], [])
  diff remote_map polled (f ∷ fs) =
      let rest = diff remote_map polled fs in
      if f.dirty then rest else elim (find f.full_path remote_map) [
        | some r ↦ if is_updated f r then (update_of f r ∷ rest.0, rest.1) else rest
        | none ↦
            if mem_text (parent_path f.full_path) polled then (rest.0, f.ino ∷ rest.1) else rest
      ]

-- Phase 2.
unfoldable pub apply_updates : List Update → InodeTable → Invalidations → InodeTable × Invalidations
apply_updates [] t queued = (t, queued)
apply_updates (u ∷ us) t queued =
    let written = update_remote_file u.ino u.remote t in
    let t' =
      if written.1
      then update u.ino (λ e. record e { needs_size_probe = u.needs_size_probe }) written.0
      else written.0 in
    apply_updates us t' (queue_file_invalidation t' u.ino queued)

unfoldable pub apply_deletions :
    ℕ → List ℕ → InodeTable → Invalidations → InodeTable × Invalidations
apply_deletions now [] t queued = (t, queued)
apply_deletions now (ino ∷ inos) t queued =
    let removed = remove_remote_file now ino t queued in
    apply_deletions now inos removed.0 removed.1

-- Phase 3: the loaded directories that have an entry which the table does not have, each once, and
-- their paths.
unfoldable pub stale_dirs : List TreeEntry → InodeTable → List ℕ → List Text → List ℕ × List Text
stale_dirs [] t dirs paths = (dirs, paths)
stale_dirs (e ∷ es) t dirs paths = elim (get_by_path e.path t) [
  | some _ ↦ stale_dirs es t dirs paths
  | none ↦ elim (nearest_dir_ancestor e.path t) [
    | none ↦ stale_dirs es t dirs paths
    | some (dir_ino, dir_path) ↦
        if is_children_loaded dir_ino t && not (mem dir_ino dirs)
        then stale_dirs es t (dir_ino ∷ dirs) (dir_path ∷ paths)
        else stale_dirs es t dirs paths
  ]
]

abbrev pub starts_with : Text → Text → Bool
starts_with [] text = true
starts_with (c ∷ cs) [] = false
starts_with (c ∷ cs) (d ∷ ds) = c == d && starts_with cs ds

-- Whether an entry of the negative cache lies under a directory, or is it.
unfoldable pub is_under : Text → Text → Bool
is_under dir_path path =
    is_nil dir_path || (starts_with (dir_path ++ slash ∷ []) path || path == dir_path)

unfoldable pub retain_outside : Text → List (Text × ℕ) → List (Text × ℕ)
retain_outside dir_path [] = []
retain_outside dir_path (e ∷ nc) =
    let rest = retain_outside dir_path nc in if is_under dir_path e.0 then rest else e ∷ rest

unfoldable pub clear_under : List Text → List (Text × ℕ) → List (Text × ℕ)
clear_under [] nc = nc
clear_under (p ∷ ps) nc = clear_under ps (retain_outside p nc)

unfoldable pub apply_poll_diff :
    (Text → ℕ)
    → ℕ
    → List TreeEntry
    → List Text
    → InodeTable
    → InodeTable
    → List (Text × ℕ)
    → InodeTable × List (Text × ℕ) × Invalidations
apply_poll_diff parse_time now entries polled read_table t nc =
    let d = diff parse_time now (remote_map_of entries []) polled (file_snapshot read_table) in
    let updated = apply_updates d.0 t [] in
    let deleted = apply_deletions now d.1 updated.0 updated.1 in
    let stale = stale_dirs entries deleted.0 [] [] in
    (invalidate_all stale.0 deleted.0, clear_under stale.1 nc, deleted.1 ++ all_pages stale.0)
