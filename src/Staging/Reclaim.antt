-- ===== src/Staging/Reclaim.antt =====
-- The reclaim of staging files against unflushed data.
use hf_mount_encrypted.Base.{
  ℕ, ◌≡◌, refl, sym, ap, ◌∙◌, Bool, false, not, none, List, [], ◌∷◌, if◌then◌else◌, Bool-cases,
  true-false, Option-cases, inl, inr, subst,
}
use hf_mount_encrypted.Base.Eq.{number_eq, ◌==◌, eq_of_same}
use hf_mount_encrypted.Base.Map.{find, find-erase}
use hf_mount_encrypted.Inode.Table.{InodeTable, get}
use hf_mount_encrypted.Inode.Evict.{staging_gc_candidates}
use hf_mount_encrypted.Staging.{
  StagingDir, file_size, is_over_limit, resize_bytes, try_remove, is_clean, gc_one, gc_loop, gc,
}

module _ (removable : ℕ → Bool) (x : ℕ) where
  try_remove-other :
      (ino : ℕ) (d : StagingDir)
      → (ino == x) ≡ false
      → find x (try_remove removable ino d).0.files ≡ find x d.files
  unfolding try_remove resize_bytes
  try_remove-other ino d other = elim (Option-cases (find ino d.files)) [
    | inl e ↦ rw (e, try_remove) refl
    | inr (size, e) ↦ elim (Bool-cases (removable ino)) [
      | inl r ↦
          rw (e, try_remove)
            (rw r (
              find-erase ino x d.files
              ∙ ap (λ (b : Bool). if b then none else find x d.files) other))
      | inr r ↦ rw (e, try_remove) (rw r refl)
    ]
  ]

  gc_one-keeps :
      (ino : ℕ) (t : InodeTable) (d : StagingDir)
      → (ino ≡ x → is_clean (get x t) ≡ false)
      → find x (gc_one removable ino t d).0.files ≡ find x d.files
  unfolding gc_one
  gc_one-keeps ino t d dirty = elim (Bool-cases (not (is_over_limit d))) [
    | inl h ↦ rw h refl
    | inr h ↦ elim (Bool-cases (is_clean (get ino t))) [
      | inr c ↦ rw (h, c) refl
      | inl c ↦ elim (Bool-cases (ino == x)) [
        | inr k ↦ rw (h, c) (try_remove-other ino d k)
        | inl k ↦
            let same = eq_of_same ino x k in
            absurd (true-false (sym c ∙ ap (λ (i : ℕ). is_clean (get i t)) same ∙ dirty same))
      ]
    ]
  ]

  gc_loop-keeps :
      (seen : ℕ → InodeTable) (inos : List ℕ) (count : ℕ) (d : StagingDir)
      → is_clean (get x (seen x)) ≡ false
      → find x (gc_loop removable seen inos count d).0.files ≡ find x d.files
  unfolding gc_loop
  gc_loop-keeps seen [] count d dirty = refl
  gc_loop-keeps seen (ino ∷ inos) count d dirty = elim (Bool-cases (not (is_over_limit d))) [
    | inl h ↦ rw h refl
    | inr h ↦ elim (Bool-cases (file_size ino d == 0)) [
      | inl z ↦ rw (h, z) (gc_loop-keeps seen inos count d dirty)
      | inr z ↦
          let tried = gc_one removable ino (seen ino) d in
          rw (h, z)
            (gc_loop-keeps seen inos _ tried.0 dirty
              ∙ gc_one-keeps ino (seen ino) d
                  (λ e. subst (λ (i : ℕ). is_clean (get x (seen i)) ≡ false) (sym e) dirty))
    ]
  ]

  -- The reclaim leaves the staging file of an inode that has unflushed data, or is gone from the table,
  -- when its turn comes, whatever the table was when the candidates were chosen.
  pub gc-keeps :
      (t : InodeTable) (seen : ℕ → InodeTable) (d : StagingDir)
      → is_clean (get x (seen x)) ≡ false
      → find x (gc removable t seen d).0.files ≡ find x d.files
  unfolding gc
  gc-keeps t seen d dirty = elim (Bool-cases (not (is_over_limit d))) [
    | inl h ↦ rw h refl
    | inr h ↦ rw h (gc_loop-keeps seen (staging_gc_candidates t) 0 d dirty)
  ]
