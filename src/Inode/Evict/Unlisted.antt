-- ===== src/Inode/Evict/Unlisted.antt =====
-- The evictions of `evict_batch_if_safe` take the evicted entries out of the listings of their parents.
use hf_mount_encrypted.Base.{
  ℕ, ◌≡◌, refl, ◌∙◌, true, none, some, Option, List, ◌==◌, arith, Bool-cases, Option-cases, inl,
  inr,
}
use hf_mount_encrypted.Base.Eq.{number_eq, text_eq, same_refl}
use hf_mount_encrypted.Base.Map.{find, erase, modify, find-erase, find-modify}
use hf_mount_encrypted.Inode.{InodeEntry, Text}
use hf_mount_encrypted.Inode.Table.{InodeTable, get}
use hf_mount_encrypted.Inode.Evict.{evict_member, evict_groups, drop_index}
use hf_mount_encrypted.Inode.Evict.Groups.{grouped}
use hf_mount_encrypted.Inode.Evict.Listing.{bare, bare_at, bare_at-none, bare_at-some}
use hf_mount_encrypted.Inode.Evict.Lasting.{evict_groups-makes}
use hf_mount_encrypted.Inode.Evict.Parents.{OnlyIn}

-- What holds of the entry, where there is one.
abbrev pub OfEntry : (InodeEntry → Type 0) → Option InodeEntry → Type 0
OfEntry P none = Unit
OfEntry P (some e) = P e

module _ (P : InodeEntry → Type 0) where
  OfEntry-find-erase :
      (q i : ℕ) (l : List (ℕ × InodeEntry)) → OfEntry P (find q l) → OfEntry P (find q (erase i l))
  OfEntry-find-erase q i l h =
      rw (find-erase i q l) (elim (Bool-cases (i == q)) [ inl k ↦ rw k tt | inr k ↦ rw k h ])

  pub OfEntry-find-modify :
      (q p : ℕ) (f : InodeEntry → InodeEntry) (l : List (ℕ × InodeEntry))
      → ((e : InodeEntry) → P e → P (f e))
      → OfEntry P (find q l)
      → OfEntry P (find q (modify p f l))
  OfEntry-find-modify q p f l keeps h = rw (find-modify p q f l) (elim (Bool-cases (p == q)) [
    | inr k ↦ rw k h
    | inl k ↦ rw k (elim (Option-cases (find q l)) [
      | inl e ↦ rw e tt
      | inr (w, e) ↦ rw e (keeps w (rw e at h))
    ])
  ])

  -- A write at `q` makes it hold there.
  OfEntry-find-write :
      (q : ℕ) (f : InodeEntry → InodeEntry) (l : List (ℕ × InodeEntry))
      → ((e : InodeEntry) → P (f e))
      → OfEntry P (find q (modify q f l))
  OfEntry-find-write q f l makes = rw (find-modify q q f l) (
      rw (same_refl q)
        (elim (Option-cases (find q l)) [ inl e ↦ rw e tt | inr (w, e) ↦ rw e (makes w) ]))

-- The name leads from the directory to no child.
abbrev pub Unnamed : Text → InodeEntry → Type 0
Unnamed name e = find name e.child_index ≡ none

drop_index-Unnamed :
    (n name : Text) (e : InodeEntry) → Unnamed name e → Unnamed name (drop_index n e)
unfolding drop_index
drop_index-Unnamed n name e h = find-erase n name e.child_index ∙ rw h (ground arith)

drop_index_same : (name : Text) (e : InodeEntry) → Unnamed name (drop_index name e)
unfolding drop_index
drop_index_same name e = find-erase name name e.child_index ∙ rw (same_refl name) refl

evict_member-Unnamed :
    (q : ℕ) (name : Text) (p i : ℕ) (t : InodeTable)
    → OfEntry (Unnamed name) (get q t)
    → OfEntry (Unnamed name) (get q (evict_member p i t).0)
unfolding evict_member get
evict_member-Unnamed q name p i t h = elim (Option-cases (find i t.inodes)) [
  | inl e ↦ rw (e, evict_member) h
  | inr (w, e) ↦
      rw (e, evict_member)
        (OfEntry-find-modify (Unnamed name) q p (drop_index w.name) (erase i t.inodes)
          (drop_index-Unnamed w.name name) (OfEntry-find-erase (Unnamed name) q i t.inodes h))
]

some_name :
    (o : Option InodeEntry) (v w : InodeEntry)
    → o ≡ some (bare v)
    → o ≡ some (bare w)
    → w.name ≡ v.name
unfolding bare
some_name o v w h k = cc

evict_member-unnames :
    (q i : ℕ) (v : InodeEntry) (t : InodeTable)
    → bare_at t i ≡ some (bare v)
    → OfEntry (Unnamed v.name) (get q (evict_member q i t).0)
unfolding evict_member
evict_member-unnames q i v t there = elim (Option-cases (get i t)) [
  | inl e ↦ let gone = bare_at-none t i e in cc
  | inr (w, e) ↦
      let same = some_name (bare_at t i) v w there (bare_at-some t i w e) in
      rw (e, evict_member)
        (unfold get in
          OfEntry-find-write (Unnamed v.name) q (drop_index w.name) (erase i t.inodes)
            (λ d. rw same (drop_index_same v.name d)))
]

pub evict_groups-unnames :
    (x : ℕ) (v : InodeEntry) (groups : List (ℕ × List ℕ)) (t : InodeTable)
    → OnlyIn v.parent x groups
    → grouped x groups ≡ true
    → bare_at t x ≡ some (bare v)
    → OfEntry (Unnamed v.name) (get v.parent (evict_groups groups t).0)
evict_groups-unnames x v =
    evict_groups-makes (λ t. OfEntry (Unnamed v.name) (get v.parent t)) x v.parent v
      (λ p i t h. evict_member-Unnamed v.parent v.name p i t h)
      (λ t there. evict_member-unnames v.parent x v t there)
