-- ===== src/Inode/Evict/Outcomes.antt =====
-- The evictions of `evict_batch_if_safe`: what they take out of the table, and what they leave of the
-- other entries.
use Prim.Native.Nat.{ℕ}
use hf_mount_encrypted.Base.{
  ◌≡◌, refl, ◌∙◌, Bool, true, false, ◌&&◌, ◌||◌, none, List, [], ◌∷◌, ◌++◌, ◌==◌, if◌then◌else◌,
  arith, Bool-cases, Option-cases, inl, inr,
}
use hf_mount_encrypted.Base.Eq.{number_eq}
use hf_mount_encrypted.Base.Map.{erase}
use hf_mount_encrypted.Inode.{is_some}
use hf_mount_encrypted.Inode.Evict.Listing.{
  bare_at, bare_in-modify, bare_in-erase, drop_index-KeepsBare, drop_listing-KeepsBare,
  bare_at-none, bare_at-some,
}
use hf_mount_encrypted.Inode.Table.{InodeTable, get, update}
use hf_mount_encrypted.Inode.Evict.{
  mem, evict_member, evict_set, evict_groups, drop_index, drop_listing, drop_listings,
}
use hf_mount_encrypted.Inode.Evict.Groups.{grouped}

mem_append : (x : ℕ) (s t : List ℕ) → mem x (s ++ t) ≡ (mem x s || mem x t)
unfolding mem
mem_append x [] t = refl
mem_append x (y ∷ s) t = ground (arith, mem_append x s t)

-- Of the inode `x`, a removal of entries takes it out where `b` holds, keeps all but its listing
-- elsewhere, and names it among the evicted where it took out an entry.
abbrev pub Outcome : ℕ → Bool → InodeTable → InodeTable × List ℕ → Type 0
Outcome x b t r =
    (bare_at r.0 x ≡ (if b then none else bare_at t x)) × (mem x r.1 ≡ (b && is_some (bare_at t x)))

Outcome-compose :
    (x : ℕ) (b c : Bool) (t : InodeTable) (r s : InodeTable × List ℕ)
    → Outcome x b t r
    → Outcome x c r.0 s
    → Outcome x (b || c) t (s.0, r.1 ++ s.1)
Outcome-compose x true true t r s h k =
    (k.0, mem_append x r.1 s.1 ∙ rw (h.1, k.1, h.0) (ground arith))
Outcome-compose x true false t r s h k =
    (k.0 ∙ h.0, mem_append x r.1 s.1 ∙ rw (h.1, k.1) (ground arith))
Outcome-compose x false true t r s h k = (k.0, mem_append x r.1 s.1 ∙ rw (h.1, k.1, h.0) refl)
Outcome-compose x false false t r s h k = (k.0 ∙ h.0, mem_append x r.1 s.1 ∙ rw (h.1, k.1) refl)

pub evict_member_lem : (p i x : ℕ) (t : InodeTable) → Outcome x (x == i) t (evict_member p i t)
unfolding evict_member mem
evict_member_lem p i x t = elim (Option-cases (get i t)) [
  | inl e ↦
      rw (e, evict_member)
        (elim (Bool-cases (x == i)) [
          | inl h ↦
              let same : x ≡ i = ground (arith, h) in
              rw h (rw same (rw (bare_at-none t i e) (refl, refl)))
          | inr h ↦ rw h (refl, refl)
        ])
  | inr (v, e) ↦
      rw (e, evict_member)
        (
          unfold bare_at in
              bare_in-modify p x (drop_index v.name) (erase i t.inodes)
                (drop_index-KeepsBare v.name)
              ∙ bare_in-erase i x t.inodes,
          elim (Bool-cases (x == i)) [
            | inl h ↦
                let same : x ≡ i = ground (arith, h) in
                rw h (rw same (rw (bare_at-some t i v e) refl))
            | inr h ↦ rw h refl
          ],
        )
]

pub evict_set_lem :
    (p x : ℕ) (s : List ℕ) (t : InodeTable) → Outcome x (mem x s) t (evict_set p s t)
unfolding evict_set mem
evict_set_lem p x [] t = (refl, refl)
evict_set_lem p x (i ∷ s) t =
    Outcome-compose x (x == i) (mem x s) t (evict_member p i t)
      (evict_set p s (evict_member p i t).0) (evict_member_lem p i x t)
      (evict_set_lem p x s (evict_member p i t).0)

pub evict_groups_lem :
    (x : ℕ) (groups : List (ℕ × List ℕ)) (t : InodeTable)
    → Outcome x (grouped x groups) t (evict_groups groups t)
unfolding evict_groups grouped mem
evict_groups_lem x [] t = (refl, refl)
evict_groups_lem x ((p, s) ∷ groups) t =
    Outcome-compose x (mem x s) (grouped x groups) t (evict_set p s t)
      (evict_groups groups (evict_set p s t).0) (evict_set_lem p x s t)
      (evict_groups_lem x groups (evict_set p s t).0)

pub bare_at-drop_listings :
    (x : ℕ) (groups : List (ℕ × List ℕ)) (t : InodeTable)
    → bare_at (drop_listings groups t) x ≡ bare_at t x
unfolding drop_listings update
bare_at-drop_listings x [] t = refl
bare_at-drop_listings x ((p, s) ∷ groups) t =
    bare_at-drop_listings x groups (update p (drop_listing s) t)
    ∙ (unfold bare_at in bare_in-modify p x (drop_listing s) t.inodes (drop_listing-KeepsBare s))
