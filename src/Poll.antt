-- ===== src/Poll.antt =====
-- src/virtual_fs/poll.rs: the loops that bring remote changes into the inode table. The answers of the Hub are arguments, a kernel invalidation is an entry of a list.
pub mod Backoff
pub mod Changes
pub mod Diff
pub mod Follow
mod Tests
use hf_mount_encrypted.Base.{
  ℕ, ◌+◌, ◌*◌, ◌-◌, ◌^◌, Bool, true, false, ◌||◌, not, Option, none, some, List, [], ◌∷◌, ◌++◌,
  ◌==◌, min, ltb, if◌then◌else◌,
}
use hf_mount_encrypted.Inode.{Text, InodeEntry, is_dirty}
use hf_mount_encrypted.Inode.Table.{InodeTable, get, has_open_handles}
use hf_mount_encrypted.Inode.Remove.{remove, unlink_one}
use hf_mount_encrypted.Error.{Error, status, is_transient}

pub data InvalKind : Type 0 where
  pages attr_only : InvalKind

abbrev pub Invalidations : Type 0
Invalidations = List (ℕ × InvalKind)

unfoldable pub queue_file_invalidation : InodeTable → ℕ → Invalidations → Invalidations
queue_file_invalidation t ino queued =
    queued ++ (ino, if has_open_handles ino t then attr_only else pages) ∷ []

-- `remove`, which ends on every table.
abbrev pub without : ℕ → InodeTable → InodeTable
without ino t = elim (remove ino t) [ none ↦ t | some removed ↦ removed.0 ]

unfoldable pub remove_remote_file :
    ℕ → ℕ → InodeTable → Invalidations → InodeTable × Invalidations × Bool
remove_remote_file now ino t queued = elim (get ino t) [
  | none ↦ (t, queued, false)
  | some e ↦ if is_dirty e then (t, queued, false) else (
    if has_open_handles ino t then (unlink_one e.parent e.name now t).0 else without ino t,
    queue_file_invalidation t ino (queued ++ (e.parent, pages) ∷ []),
    true,
  )
]

abbrev is_unauthorized : Option ℕ → Bool
is_unauthorized none = false
is_unauthorized (some code) = code == 401

module _ {Io Json Http : Type 0} (is_timeout is_connect : Http → Bool) where
  unfoldable pub should_back_off : Error Io Json Http → Bool
  should_back_off e = is_unauthorized (status e) || is_transient is_timeout is_connect e
