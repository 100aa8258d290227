-- ===== src/Inode/Evict/Lasting.antt =====
-- What the eviction of one entry of the batch brings about, and none undoes, holds in the end.
use hf_mount_encrypted.Base.{
  ℕ, ◌≡◌, sym, ◌∙◌, true, some, List, [], ◌∷◌, ◌==◌, arith, Bool-cases, inl, inr, subst,
}
use hf_mount_encrypted.Base.Eq.{number_eq}
use hf_mount_encrypted.Inode.{InodeEntry}
use hf_mount_encrypted.Inode.Table.{InodeTable}
use hf_mount_encrypted.Inode.Evict.{mem, evict_member, evict_set, evict_groups}
use hf_mount_encrypted.Inode.Evict.Groups.{grouped}
use hf_mount_encrypted.Inode.Evict.Listing.{bare, bare_at}
use hf_mount_encrypted.Inode.Evict.Outcomes.{evict_member_lem, evict_set_lem}
use hf_mount_encrypted.Inode.Evict.Parents.{OnlyIn}

module _ (K : InodeTable → Type 0) (x q : ℕ) (v : InodeEntry)
    (stays : (p i : ℕ) (t : InodeTable) → K t → K (evict_member p i t).0)
    (makes : (t : InodeTable) → bare_at t x ≡ some (bare v) → K (evict_member q x t).0) where
  evict_set-stays : (p : ℕ) (s : List ℕ) (t : InodeTable) → K t → K (evict_set p s t).0
  unfolding evict_set
  evict_set-stays p [] t k = k
  evict_set-stays p (i ∷ s) t k = evict_set-stays p s (evict_member p i t).0 (stays p i t k)

  evict_groups-stays :
      (groups : List (ℕ × List ℕ)) (t : InodeTable) → K t → K (evict_groups groups t).0
  unfolding evict_groups
  evict_groups-stays [] t k = k
  evict_groups-stays ((p, s) ∷ groups) t k =
      evict_groups-stays groups (evict_set p s t).0 (evict_set-stays p s t k)

  evict_set-makes :
      (s : List ℕ) (t : InodeTable)
      → mem x s ≡ true
      → bare_at t x ≡ some (bare v)
      → K (evict_set q s t).0
  unfolding evict_set mem
  evict_set-makes [] t member there = cc
  evict_set-makes (i ∷ s) t member there =
      let first = evict_member q i t in
      elim (Bool-cases (x == i)) [
        | inl h ↦
            let same : x ≡ i = ground (arith, h) in
            evict_set-stays q s first.0
              (subst (λ (n : ℕ). K (evict_member q n t).0) same (makes t there))
        | inr h ↦
            evict_set-makes s first.0 (ground (arith, member, h))
              ((evict_member_lem q i x t).0 ∙ rw h there)
      ]

  pub evict_groups-makes :
      (groups : List (ℕ × List ℕ)) (t : InodeTable)
      → OnlyIn q x groups
      → grouped x groups ≡ true
      → bare_at t x ≡ some (bare v)
      → K (evict_groups groups t).0
  unfolding evict_groups grouped
  evict_groups-makes [] t only member there = cc
  evict_groups-makes ((p, s) ∷ groups) t only member there =
      let first = evict_set p s t in
      elim (Bool-cases (mem x s)) [
        | inl h ↦ evict_groups-stays groups first.0 (
            subst (λ (n : ℕ). K (evict_set n s t).0) (sym (only.0 h)) (evict_set-makes s t h there))
        | inr h ↦
            evict_groups-makes groups first.0 only.1 (ground (arith, member, h))
              ((evict_set_lem p x s t).0 ∙ rw h there)
      ]
