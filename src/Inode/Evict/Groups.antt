-- ===== src/Inode/Evict/Groups.antt =====
-- The first loop of `evict_batch_if_safe`: the inodes that it groups by their parent.
use Prim.Native.Nat.{ℕ}
use hf_mount_encrypted.Base.{
  ◌≡◌, ◌∙◌, Bool, false, ◌&&◌, ◌||◌, none, some, List, [], ◌∷◌, ◌==◌, arith, Bool-cases,
  Option-cases, inl, inr,
}
use hf_mount_encrypted.Base.Eq.{number_eq}
use hf_mount_encrypted.Base.Map.{find, modify}
use hf_mount_encrypted.Inode.{is_some}
use hf_mount_encrypted.Inode.Table.{InodeTable, get}
use hf_mount_encrypted.Inode.Evict.{
  mem, set_insert, group_insert, group_eligible_one, group_eligible, is_batch_safe,
}

pub mem-set_insert : (x y : ℕ) (s : List ℕ) → mem x (set_insert y s) ≡ (x == y || mem x s)
unfolding mem set_insert
mem-set_insert x y s = elim (Bool-cases (mem y s)) [
  | inl h ↦ elim (Bool-cases (x == y)) [
    | inl e ↦ let same : x ≡ y = ground (arith, e) in rw same (rw h (ground (arith, h)))
    | inr e ↦ rw h (ground (arith, e))
  ]
  | inr h ↦ rw h (ground arith)
]

-- Some group holds the inode.
unfoldable pub grouped : ℕ → List (ℕ × List ℕ) → Bool
grouped x [] = false
grouped x ((_, s) ∷ groups) = mem x s || grouped x groups

grouped-modify :
    (x p i : ℕ) (m : List (ℕ × List ℕ))
    → grouped x (modify p (set_insert i) m) ≡ (grouped x m || (x == i && is_some (find p m)))
unfolding grouped modify find
grouped-modify x p i [] = ground arith
grouped-modify x p i ((q, s) ∷ m) = elim (Bool-cases (p == q)) [
  | inl h ↦ rw h (ground (arith, mem-set_insert x i s, grouped-modify x p i m))
  | inr h ↦ rw h (ground (arith, grouped-modify x p i m))
]

grouped-group_insert :
    (x p i : ℕ) (m : List (ℕ × List ℕ)) → grouped x (group_insert p i m) ≡ (x == i || grouped x m)
unfolding group_insert
grouped-group_insert x p i m = elim (Option-cases (find p m)) [
  | inl e ↦ rw (e, group_insert) (unfold grouped mem in ground arith)
  | inr (s, e) ↦ rw (e, group_insert) (grouped-modify x p i m ∙ rw e (ground arith))
]

-- The entry is in the table and passes the test of the batch.
unfoldable pub is_victim : InodeTable → ℕ → Bool
is_victim t ino = elim (get ino t) [ none ↦ false | some e ↦ is_batch_safe e ]

grouped-group_eligible_one :
    (t : InodeTable) (x i : ℕ) (m : List (ℕ × List ℕ))
    → grouped x (group_eligible_one t i m) ≡ (grouped x m || (x == i && is_victim t x))
unfolding group_eligible_one
grouped-group_eligible_one t x i m = elim (Bool-cases (x == i)) [
  | inl h ↦
      let same : x ≡ i = ground (arith, h) in
      rw same (elim (Option-cases (get i t)) [
        | inl e ↦ rw (e, group_eligible_one) (unfold is_victim in rw (e, is_victim) (ground arith))
        | inr (v, e) ↦
            rw (e, group_eligible_one)
              (unfold is_victim in
                rw (e, is_victim) (ground (arith, grouped-group_insert i v.parent i m)))
      ])
  | inr h ↦ elim (Option-cases (get i t)) [
    | inl e ↦ rw (e, group_eligible_one) (ground (arith, h))
    | inr (v, e) ↦
        rw (e, group_eligible_one) (ground (arith, h, grouped-group_insert x v.parent i m))
  ]
]

pub grouped-group_eligible :
    (t : InodeTable) (x : ℕ) (inos : List ℕ) (m : List (ℕ × List ℕ))
    → grouped x (group_eligible t inos m) ≡ (grouped x m || (mem x inos && is_victim t x))
unfolding group_eligible mem
grouped-group_eligible t x [] m = ground arith
grouped-group_eligible t x (i ∷ inos) m = ground (
  arith,
  grouped-group_eligible t x inos (group_eligible_one t i m),
  grouped-group_eligible_one t x i m,
)
