-- ===== src/Staging.antt =====
-- src/virtual_fs/staging.rs and the `StagingDir` of src/xet.rs: the files that are written before a
-- flush, and their reclaim. The directory is the size of each inode's file; whether the disk lets a
-- file go is an argument. A per-inode lock makes `gc_one` one step, but for the table, which
-- others may change before it reads it: the table that it reads is an argument by the inode.
pub mod Reclaim
mod Tests
use hf_mount_encrypted.Base.{
  ℕ, suc, ◌+◌, ◌-◌, Bool, true, false, ◌&&◌, not, Option, none, some, List, [], ◌∷◌, ltb,
  if◌then◌else◌,
}
use hf_mount_encrypted.Base.Eq.{number_eq, ◌==◌}
use hf_mount_encrypted.Base.Map.{find, erase}
use hf_mount_encrypted.Base.Word.{saturating_add}
use hf_mount_encrypted.Inode.{InodeEntry, is_dirty}
use hf_mount_encrypted.Inode.Table.{InodeTable, get}
use hf_mount_encrypted.Inode.Evict.{staging_gc_candidates}

pub record StagingDir : Type 0 where
  pub files : List (ℕ × ℕ)
  pub bytes_used : ℕ
  pub max_bytes : ℕ

unfoldable pub file_size : ℕ → StagingDir → ℕ
file_size ino d = elim (find ino d.files) [ none ↦ 0 | some size ↦ size ]

unfoldable pub is_over_limit : StagingDir → Bool
is_over_limit d = ltb 0 d.max_bytes && ltb d.max_bytes d.bytes_used

unfoldable pub has_budget : StagingDir → Bool
has_budget d = ltb 0 d.max_bytes

unfoldable pub resize_bytes : ℕ → ℕ → StagingDir → StagingDir
resize_bytes old new d = record d { bytes_used = saturating_add (d.bytes_used - old) new }

abbrev pub is_clean : Option InodeEntry → Bool
is_clean none = false
is_clean (some e) = not (is_dirty e)

module _ (removable : ℕ → Bool) where
  unfoldable pub try_remove : ℕ → StagingDir → StagingDir × Bool
  try_remove ino d = elim (find ino d.files) [
    | none ↦ (d, false)
    | some size ↦
        if removable ino
        then (resize_bytes size 0 (record d { files = erase ino d.files }), true)
        else (d, false)
  ]

  unfoldable pub gc_one : ℕ → InodeTable → StagingDir → StagingDir × Bool
  gc_one ino t d =
      let removed = try_remove ino d in
      if not (is_over_limit d)
      then (d, false)
      else if is_clean (get ino t)
      then removed
      else (d, false)

  -- The loop of `gc`; `seen` is the table that each turn reads.
  unfoldable pub gc_loop : (ℕ → InodeTable) → List ℕ → ℕ → StagingDir → StagingDir × ℕ
  gc_loop seen [] count d = (d, count)
  gc_loop seen (ino ∷ inos) count d =
      let tried = gc_one ino (seen ino) d in
      let skip = gc_loop seen inos count d in
      let later = gc_loop seen inos (if tried.1 then suc count else count) tried.0 in
      if not (is_over_limit d) then (d, count) else if file_size ino d == 0 then skip else later

  unfoldable pub gc : InodeTable → (ℕ → InodeTable) → StagingDir → StagingDir × ℕ
  gc t seen d = if not (is_over_limit d) then (d, 0) else gc_loop seen (staging_gc_candidates t) 0 d
