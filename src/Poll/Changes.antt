-- ===== src/Poll/Changes.antt =====
-- src/virtual_fs/poll.rs, `apply_follow_changes`: a batch of the live-follow feed. `parse_time` is
-- `mtime_from_str`, which the crate chrono reads.
use hf_mount_encrypted.Base.{
  ℕ, Bool, true, false, ◌||◌, not, Option, none, some, List, [], ◌∷◌, ◌++◌, ◌==◌, if◌then◌else◌,
  length, suc, zero,
}
use hf_mount_encrypted.Base.Eq.{text_eq, number_eq}
use hf_mount_encrypted.Base.Map.{erase}
use hf_mount_encrypted.Inode.{Text, is_dirty, is_file}
use hf_mount_encrypted.Inode.Table.{InodeTable, get_by_path}
use hf_mount_encrypted.Inode.Remote.{
  nearest_dir_ancestor, is_children_loaded, invalidate_children, merge_remote_file, parent_path,
  has_slash,
}
use hf_mount_encrypted.Poll.{Invalidations, pages, queue_file_invalidation, remove_remote_file}

pub data FollowOp : Type 0 where
  add update delete : FollowOp

pub record FollowChange : Type 0 where
  pub path : Text
  pub op : FollowOp
  pub size : Option ℕ
  pub xet_hash : Option Text
  pub uploaded_at : Option Text
  pub mtime : Option Text

-- What a batch changes: the table, the inodes to invalidate in the kernel, and the directories whose
-- listing is stale, a set.
pub record Applied : Type 0 where
  pub table : InodeTable
  pub queued : Invalidations
  pub stale : List ℕ

abbrev pub mem : ℕ → List ℕ → Bool
mem x [] = false
mem x (y ∷ ys) = x == y || mem x ys

abbrev pub set_insert : ℕ → List ℕ → List ℕ
set_insert x xs = if mem x xs then xs else x ∷ xs

-- The listing of the nearest directory, where it is loaded.
unfoldable pub mark_stale : Text → Applied → Applied
mark_stale path a = elim (nearest_dir_ancestor path a.table) [
  | none ↦ a
  | some (dir_ino, _) ↦
      if is_children_loaded dir_ino a.table
      then record a { stale = set_insert dir_ino a.stale }
      else a
]

abbrev or_else : Option Text → Option Text → Option Text
or_else none second = second
or_else (some x) second = some x

module _ (parse_time : Text → ℕ) where
  unfoldable pub change_time : FollowChange → Option ℕ
  change_time c = elim (or_else c.mtime c.uploaded_at) [
    | none ↦ none
    | some text ↦ some (parse_time text)
  ]

  unfoldable pub merge_change : FollowChange → ℕ → Applied → Applied
  merge_change c ino a =
      let merged = merge_remote_file ino c.xet_hash c.size (change_time c) a.table in
      if merged.1
      then record a { table = merged.0; queued = queue_file_invalidation merged.0 ino a.queued }
      else record a { table = merged.0 }

  -- A change of a file that the table has, and that has no unflushed data.
  unfoldable pub change_file : ℕ → FollowChange → ℕ → FollowOp → Applied → Applied
  change_file now c ino add a = merge_change c ino a
  change_file now c ino update a = merge_change c ino a
  change_file now c ino delete a =
      let removed = remove_remote_file now ino a.table a.queued in
      record a { table = removed.0; queued = removed.1 }

  unfoldable pub apply_change : ℕ → FollowChange → Applied → Applied
  apply_change now c a = elim (get_by_path c.path a.table) [
    | none ↦ mark_stale c.path a
    | some e ↦
        if not (is_file e.kind)
        then mark_stale c.path a
        else if is_dirty e
        then a
        else change_file now c e.inode c.op a
  ]

  unfoldable pub apply_changes : ℕ → List FollowChange → Applied → Applied
  apply_changes now [] a = a
  apply_changes now (c ∷ cs) a = apply_changes now cs (apply_change now c a)

unfoldable pub invalidate_all : List ℕ → InodeTable → InodeTable
invalidate_all [] t = t
invalidate_all (dir_ino ∷ dirs) t = invalidate_all dirs (invalidate_children dir_ino t)

-- The negative cache: the path and every directory above it are no longer missing. The fuel is the
-- length of the path.
unfoldable pub clear_path : ℕ → Text → List (Text × ℕ) → List (Text × ℕ)
clear_path zero path nc = erase path nc
clear_path (suc fuel) path nc =
    let rest = clear_path fuel (parent_path path) (erase path nc) in
    if has_slash path then rest else erase path nc

abbrev is_delete : FollowOp → Bool
is_delete add = false
is_delete update = false
is_delete delete = true

unfoldable pub clear_negative : List FollowChange → List (Text × ℕ) → List (Text × ℕ)
clear_negative [] nc = nc
clear_negative (c ∷ cs) nc =
    clear_negative cs (if is_delete c.op then nc else clear_path (length c.path) c.path nc)

abbrev pub all_pages : List ℕ → Invalidations
all_pages [] = []
all_pages (ino ∷ inos) = (ino, pages) ∷ all_pages inos

-- The table, the negative cache, and the calls of the invalidator.
unfoldable pub apply_follow_changes :
    (Text → ℕ)
    → ℕ
    → List FollowChange
    → InodeTable
    → List (Text × ℕ)
    → InodeTable × List (Text × ℕ) × Invalidations
apply_follow_changes parse_time now cs t nc =
    let a = apply_changes parse_time now cs (record { table = t; queued = []; stale = [] }) in
    (invalidate_all a.stale a.table, clear_negative cs nc, a.queued ++ all_pages a.stale)
