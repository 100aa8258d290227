-- ===== src/Flush/Tests.antt =====
-- Runs of a flush.
use hf_mount_encrypted.Base.{◌≡◌, refl, false, none, some, List, [], ◌∷◌, ◌++◌, All, inl}
use mathlib.Core.List.{Memᴰ}
use mathlib.Core.List.Memᴰ.{head}
use hf_mount_encrypted.Base.Text.{bytes}
use hf_mount_encrypted.Inode.{Text}
use hf_mount_encrypted.Flush.{
  BatchOp, FlushItem, Uploaded, add_file, delete_file, keep_first, dedup, is_unchanged, deletes_of,
  collect_ops, batch_ops,
}
use hf_mount_encrypted.Flush.Batch
use hf_mount_encrypted.Flush.Batch.{AddsChanged, DeletesLeft}
use hf_mount_encrypted.Flush.Queue.{enqueue_delete, cancel_delete, requeue, flush_pending_deletes}

-- The definitions that the runs compute.
code : Unit {0}
unfolding keep_first dedup is_unchanged deletes_of collect_ops batch_ops enqueue_delete
    cancel_delete requeue flush_pending_deletes
code = tt

dedup_run : dedup (3 ∷ 5 ∷ 3 ∷ 4 ∷ 5 ∷ []) ≡ 3 ∷ 4 ∷ 5 ∷ []
unfolding code
dedup_run = refl

-- A file that was renamed from `a` to `b` before its flush, and a new file at `a`.
abbrev renamed : FlushItem
renamed = record {
  ino = 2;
  full_path = bytes "b";
  pending_deletes = bytes "a" ∷ [];
  dirty_generation = 1;
  prev_xet_hash = some (bytes "w");
}

abbrev replacement : FlushItem
replacement = record {
  ino = 3;
  full_path = bytes "a";
  pending_deletes = [];
  dirty_generation = 1;
  prev_xet_hash = none;
}

abbrev uploaded : Text → Uploaded
uploaded hash = record { hash = hash; size = 1 }

abbrev both : List (FlushItem × Uploaded)
both = (renamed, uploaded (bytes "x")) ∷ (replacement, uploaded (bytes "y")) ∷ []

-- The batch adds the new file and then deletes its path.
replaced_run :
    batch_ops 9 both
    ≡ add_file (bytes "b") (bytes "x") 9
      ∷ add_file (bytes "a") (bytes "y") 9
      ∷ delete_file (bytes "a")
      ∷ []
unfolding code
replaced_run = refl

-- A delete that is cancelled while a call that fails is on its way is in the queue again.
revived_run :
    (flush_pending_deletes
      (λ ops. false)
      (cancel_delete (bytes "p"))
      (enqueue_delete (bytes "p") [])).0
    ≡ bytes "p" ∷ []
unfolding code
revived_run = refl

batch_ops_lem_example :
    (adds : List BatchOp) × (deletes : List BatchOp) × (batch_ops 9 both ≡ adds ++ deletes)
    × All (AddsChanged 9 both) adds
    × All (DeletesLeft both) deletes
    × Memᴰ (add_file (bytes "b") (bytes "x") 9) adds
    × All (λ p. Memᴰ (delete_file p) deletes) (bytes "a" ∷ [])
batch_ops_lem_example =
    Batch.batch_ops_lem 9 both (renamed, uploaded (bytes "x")) (head refl) (inl (λ e. cc))
