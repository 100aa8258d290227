-- ===== src/Poll/Diff/Unflushed.antt =====
-- The updates of a poll round against files with unflushed data.
use hf_mount_encrypted.Base.{
  ℕ, ◌≡◌, ◌≢◌, sym, ap, ◌∙◌, Bool, false, some, List, [], ◌∷◌, if◌then◌else◌, ◌==◌, arith,
  Bool-cases, inl, inr,
}
use mathlib.Core.Option
use mathlib.Core.Option.{some-injective}
use hf_mount_encrypted.Inode.{InodeEntry}
use hf_mount_encrypted.Inode.Table.{InodeTable, get, update}
use hf_mount_encrypted.Inode.Remote.{update_remote_file}
use hf_mount_encrypted.Inode.Remote.Dirty.{replaced, change_entry, change_table_cases, get-update}
use hf_mount_encrypted.Poll.{Invalidations, queue_file_invalidation}
use hf_mount_encrypted.Poll.Diff.{Update, apply_updates}

-- The table behind one update.
abbrev probe_flagged : Update → InodeTable × Bool → InodeTable
probe_flagged u written =
    if written.1
    then update u.ino (λ e. record e { needs_size_probe = u.needs_size_probe }) written.0
    else written.0

update_keeps :
    (u : Update) (t : InodeTable) (x : ℕ) (e : InodeEntry)
    → get x t ≡ some e
    → e.dirty_generation ≢ 0
    → get x (probe_flagged u (update_remote_file u.ino u.remote t)) ≡ some e
update_keeps u t x e here dirty = elim (change_table_cases (replaced u.remote) u.ino x t) [
  | inr (same, _) ↦ ap (λ (w : InodeTable × Bool). get x (probe_flagged u w)) same ∙ here
  | inl (f, found, clean, written, after) ↦ elim (Bool-cases (x == u.ino)) [
    | inl k ↦
        let at : x ≡ u.ino = ground (arith, k) in
        let one : e ≡ f = some-injective e f (sym here ∙ ap (λ (i : ℕ). get i t) at ∙ found) in
        absurd (dirty (ap (λ (d : InodeEntry). d.dirty_generation) one ∙ clean))
    | inr k ↦
        let w = update_remote_file u.ino u.remote t in
        let flag : InodeEntry → InodeEntry =
          λ d. record d { needs_size_probe = u.needs_size_probe } in
        let back : (u.ino == x) ≡ false = ground (arith, k) in
        let aside : get x w.0 ≡ get x t =
          after
          ∙ ap (λ (b : Bool). if b then some (change_entry (replaced u.remote) f) else get x t) k in
        rw written (
          get-update u.ino x flag w.0
          ∙ ap (λ (b : Bool). if b then Option.map flag (get x w.0) else get x w.0) back
          ∙ aside
          ∙ here)
  ]
]

-- A file that has unflushed data when the updates of a round are applied keeps its entry as it is,
-- whatever the listing said of it: also one that was written to after the snapshot.
pub apply_updates-keeps :
    (us : List Update) (t : InodeTable) (queued : Invalidations) (x : ℕ) (e : InodeEntry)
    → get x t ≡ some e
    → e.dirty_generation ≢ 0
    → get x (apply_updates us t queued).0 ≡ some e
unfolding apply_updates
apply_updates-keeps [] t queued x e here dirty = here
apply_updates-keeps (u ∷ us) t queued x e here dirty =
    let written = probe_flagged u (update_remote_file u.ino u.remote t) in
    apply_updates-keeps us written (queue_file_invalidation written u.ino queued) x e
      (update_keeps u t x e here dirty) dirty
