-- ===== src/Inode/Evict/Parents.antt =====
-- Every inode that `evict_batch_if_safe` groups is in the group of its parent.
use hf_mount_encrypted.Base.{
  ℕ, ◌≡◌, sym, ap, ◌∙◌, true, some, List, [], ◌∷◌, ◌==◌, arith, Bool-cases, Option-cases, inl, inr,
  All,
}
use hf_mount_encrypted.Base.Eq.{number_eq, text_eq}
use hf_mount_encrypted.Base.Map.{find, modify}
use hf_mount_encrypted.Inode.{InodeEntry}
use hf_mount_encrypted.Inode.Table.{InodeTable, get}
use hf_mount_encrypted.Inode.Evict.{
  mem, set_insert, group_insert, group_eligible_one, group_eligible, is_batch_safe,
}
use hf_mount_encrypted.Inode.Evict.Groups.{mem-set_insert}

-- No other group than that of `q` holds the inode.
abbrev pub OnlyIn : ℕ → ℕ → List (ℕ × List ℕ) → Type 0
OnlyIn q x = All (λ g. mem x g.1 ≡ true → g.0 ≡ q)

OnlyIn-modify :
    (q x p i : ℕ) (m : List (ℕ × List ℕ))
    → ((x == i) ≡ true → p ≡ q)
    → OnlyIn q x m
    → OnlyIn q x (modify p (set_insert i) m)
unfolding modify
OnlyIn-modify q x p i [] own h = tt
OnlyIn-modify q x p i ((j, s) ∷ m) own h = (
  elim (Bool-cases (p == j)) [
    | inl k ↦ rw k (λ member. elim (Bool-cases (x == i)) [
      | inl same ↦ let e = own same in ground (arith, e, k)
      | inr other ↦ h.0 (ground (arith, member, other, mem-set_insert x i s))
    ])
    | inr k ↦ rw k h.0
  ],
  OnlyIn-modify q x p i m own h.1,
)

OnlyIn-group_insert :
    (q x p i : ℕ) (m : List (ℕ × List ℕ))
    → ((x == i) ≡ true → p ≡ q)
    → OnlyIn q x m
    → OnlyIn q x (group_insert p i m)
unfolding group_insert mem
OnlyIn-group_insert q x p i m own h = elim (Option-cases (find p m)) [
  | inl e ↦ rw (e, group_insert) (λ member. own (ground (arith, member)), h)
  | inr (s, e) ↦ rw (e, group_insert) (OnlyIn-modify q x p i m own h)
]

module _ (t : InodeTable) (x : ℕ) (v : InodeEntry) (there : get x t ≡ some v) where
  OnlyIn-group_eligible_one :
      (i : ℕ) (m : List (ℕ × List ℕ))
      → OnlyIn v.parent x m
      → OnlyIn v.parent x (group_eligible_one t i m)
  unfolding group_eligible_one
  OnlyIn-group_eligible_one i m h = elim (Option-cases (get i t)) [
    | inl e ↦ rw (e, group_eligible_one) h
    | inr (w, e) ↦
        rw (e, group_eligible_one)
          (elim (Bool-cases (is_batch_safe w)) [
            | inr k ↦ rw k h
            | inl k ↦ rw k (
                OnlyIn-group_insert v.parent x w.parent i m
                  (λ same.
                    let same_ino : x ≡ i = ground (arith, same) in
                    let one = sym e ∙ ap (λ (n : ℕ). get n t) (sym same_ino) ∙ there in cc)
                  h)
          ])
  ]

  pub OnlyIn-group_eligible :
      (inos : List ℕ) (m : List (ℕ × List ℕ))
      → OnlyIn v.parent x m
      → OnlyIn v.parent x (group_eligible t inos m)
  unfolding group_eligible
  OnlyIn-group_eligible [] m h = h
  OnlyIn-group_eligible (i ∷ inos) m h =
      OnlyIn-group_eligible inos (group_eligible_one t i m) (OnlyIn-group_eligible_one i m h)
