-- ===== src/Inode/Commit.antt =====
-- The dirty generation of src/virtual_fs/inode.rs: what a flush clears, and what it may not.
use hf_mount_encrypted.Base.{
  ℕ, zero, suc, ◌+◌, ◌≡◌, ◌<◌, refl, ap, ◌∙◌, true, false, some, arith, if◌then◌else◌, ◌==◌,
}
use hf_mount_encrypted.Base.Word.{u64_max}
use hf_mount_encrypted.Inode.{
  Text, InodeEntry, set_dirty, is_dirty, clear_dirty_if, record_commit, apply_commit,
}

-- `n` writes in a row.
unfoldable pub write_times : ℕ → InodeEntry → InodeEntry
write_times zero e = e
write_times (suc n) e = set_dirty (write_times n e)

generation-write_times :
    (n : ℕ) (e : InodeEntry) (room : e.dirty_generation + n < u64_max)
    → (write_times n e).dirty_generation ≡ e.dirty_generation + n
unfolding write_times set_dirty
generation-write_times zero e room = omega arith
generation-write_times (suc n) e room =
    ground (arith, generation-write_times n e (omega (arith, room)))

apply_commit-same :
    (w : InodeEntry) (g : ℕ) (hash : Text) (size now instant : ℕ)
    → (w.dirty_generation == g) ≡ true
    → is_dirty (apply_commit hash size g now instant w) ≡ false
unfolding apply_commit clear_dirty_if record_commit is_dirty
apply_commit-same w g hash size now instant h = rw (h, apply_commit, clear_dirty_if) refl

apply_commit-other :
    (w : InodeEntry) (g : ℕ) (hash : Text) (size now instant : ℕ)
    → (w.dirty_generation == g) ≡ false
    → apply_commit hash size g now instant w
      ≡ record w { mtime = now; ctime = now; last_revalidated = some instant }
unfolding apply_commit clear_dirty_if
apply_commit-other w g hash size now instant h = rw (h, apply_commit, clear_dirty_if) refl

-- A commit that meets a later write changes nothing but the times of the entry: its generation,
-- hash, sizes and pending deletes are those of the write.
pub apply_commit-later :
    (e : InodeEntry) (n : ℕ) (hash : Text) (size now instant : ℕ)
    (room : e.dirty_generation + suc n < u64_max)
    → apply_commit hash size e.dirty_generation now instant (write_times (suc n) e)
      ≡ record (write_times (suc n) e) { mtime = now; ctime = now; last_revalidated = some instant }
apply_commit-later e n hash size now instant room =
    apply_commit-other (write_times (suc n) e) e.dirty_generation hash size now instant
      (ground (arith, generation-write_times (suc n) e room))

-- A file that was dirty when its flush began is clean behind the commit exactly if no write came in
-- between, as long as the counter does not reach its last value.
pub is_dirty-apply_commit :
    (e : InodeEntry) (n : ℕ) (hash : Text) (size now instant : ℕ) (dirty : is_dirty e ≡ true)
    (room : e.dirty_generation + n < u64_max)
    → is_dirty (apply_commit hash size e.dirty_generation now instant (write_times n e))
      ≡ (if n == 0 then false else true)
unfolding is_dirty
is_dirty-apply_commit e zero hash size now instant dirty room =
    unfold write_times in
    apply_commit-same e e.dirty_generation hash size now instant (ground arith)
is_dirty-apply_commit e (suc n) hash size now instant dirty room =
    ap is_dirty (apply_commit-later e n hash size now instant room)
    ∙ ground (arith, generation-write_times (suc n) e room)
