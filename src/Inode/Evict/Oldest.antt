-- ===== src/Inode/Evict/Oldest.antt =====
-- `lru_candidates`: the bounded heap picks what sorting all the idle files and cutting the list
-- picks.
use hf_mount_encrypted.Base.{
  ℕ, zero, suc, ◌+◌, ◌≤◌, ◌≡◌, refl, sym, ap, ◌∙◌, true, ◌&&◌, List, [], ◌∷◌, ◌==◌, ltb, leb,
  if◌then◌else◌, arith, Bool-cases, inl, inr, length, take, length-take,
}
use hf_mount_encrypted.Inode.{InodeEntry}
use hf_mount_encrypted.Inode.Table.{InodeTable}
use hf_mount_encrypted.Inode.Evict.{
  Stamp, stamp_le, stamp, is_idle, heap_push, heap_pop, heap_keep, collect_oldest, sorted_insert,
  sort_by_touch, resolve, lru_candidates, idle_stamps,
}

length-heap_push : (x : Stamp) (s : List Stamp) → length (heap_push x s) ≡ suc (length s)
unfolding heap_push
length-heap_push x [] = refl
length-heap_push x (y ∷ s) = elim (Bool-cases (stamp_le x y)) [
  | inl h ↦ rw h refl
  | inr h ↦ rw h (ap suc (length-heap_push x s))
]

take-heap_push :
    (n : ℕ) (x : Stamp) (s : List Stamp) → take n (heap_push x (take n s)) ≡ take n (heap_push x s)
unfolding heap_push
take-heap_push zero x s = refl
take-heap_push (suc n) x [] = refl
take-heap_push (suc n) x (y ∷ s) = elim (Bool-cases (stamp_le x y)) [
  | inl h ↦ rw h (ap (◌∷◌ x) (take_again n y s))
  | inr h ↦ rw h (ap (◌∷◌ y) (take-heap_push n x s))
]
  where
    take_again : (n : ℕ) (y : Stamp) (s : List Stamp) → take n (y ∷ take n s) ≡ take n (y ∷ s)
    take_again zero y s = refl
    take_again (suc n) y [] = refl
    take_again (suc n) y (z ∷ s) = ap (◌∷◌ y) (take_again n z s)

heap_pop-take : (n : ℕ) (s : List Stamp) → length s ≡ suc n → heap_pop s ≡ take n s
unfolding heap_pop
heap_pop-take n [] h = absurd (omega (arith, h))
heap_pop-take zero (x ∷ []) h = refl
heap_pop-take (suc n) (x ∷ []) h = absurd (omega (arith, h))
heap_pop-take zero (x ∷ y ∷ s) h = absurd (omega (arith, h))
heap_pop-take (suc n) (x ∷ y ∷ s) h = ap (◌∷◌ x) (heap_pop-take n (y ∷ s) (omega (arith, h)))

take_all : (n : ℕ) (s : List Stamp) → length s ≤ n → take n s ≡ s
take_all zero [] h = refl
take_all (suc n) [] h = refl
take_all zero (x ∷ s) h = absurd (omega (arith, h))
take_all (suc n) (x ∷ s) h = ap (◌∷◌ x) (take_all n s (omega (arith, h)))

heap_keep-take :
    (n : ℕ) (x : Stamp) (s : List Stamp) → heap_keep n x (take n s) ≡ take n (heap_push x s)
unfolding heap_keep
heap_keep-take n x s = elim (Bool-cases (ltb n (length (heap_push x (take n s))))) [
  | inl h ↦ rw h (
      heap_pop-take n (heap_push x (take n s))
        (ground (arith, h, length-heap_push x (take n s), length-take n s))
      ∙ take-heap_push n x s)
  | inr h ↦
      rw h (sym (take_all n (heap_push x (take n s)) (ground (arith, h))) ∙ take-heap_push n x s)
]

-- All the idle files, in the order of their stamps.
unfoldable pub sort_stamps : List Stamp → List Stamp → List Stamp
sort_stamps [] sorted = sorted
sort_stamps (x ∷ xs) sorted = sort_stamps xs (heap_push x sorted)

collect_oldest_lem :
    (n : ℕ) (l : List (ℕ × InodeEntry)) (s : List Stamp)
    → collect_oldest n l (take n s) ≡ take n (sort_stamps (idle_stamps l) s)
unfolding collect_oldest idle_stamps sort_stamps
collect_oldest_lem n [] s = refl
collect_oldest_lem n ((_, e) ∷ l) s = elim (Bool-cases (is_idle e)) [
  | inl h ↦
      rw h (rw (heap_keep-take n (stamp e) s) (collect_oldest_lem n l (heap_push (stamp e) s)))
  | inr h ↦ rw h (collect_oldest_lem n l s)
]

-- The stamps run from the least recently touched on.
abbrev Below : ℕ → List Stamp → Type 0
Below b [] = Unit
Below b (x ∷ s) = leb b x.0 ≡ true

abbrev pub IsAscending : List Stamp → Type 0
IsAscending [] = Unit
IsAscending (x ∷ s) = Below x.0 s × IsAscending s

Below-heap_push :
    (b : ℕ) (x : Stamp) (s : List Stamp) → Below b s → leb b x.0 ≡ true → Below b (heap_push x s)
unfolding heap_push
Below-heap_push b x [] h k = k
Below-heap_push b x (y ∷ s) h k = elim (Bool-cases (stamp_le x y)) [
  | inl e ↦ rw e k
  | inr e ↦ rw e h
]

heap_push-IsAscending : (x : Stamp) (s : List Stamp) → IsAscending s → IsAscending (heap_push x s)
unfolding heap_push
heap_push-IsAscending x [] h = (tt, tt)
heap_push-IsAscending x (y ∷ s) h = elim (Bool-cases (stamp_le x y)) [
  | inl e ↦ rw e (ground (arith, e), h)
  | inr e ↦ rw e (Below-heap_push y.0 x s h.0 (ground (arith, e)), heap_push-IsAscending x s h.1)
]

sort_stamps-IsAscending : (l s : List Stamp) → IsAscending s → IsAscending (sort_stamps l s)
unfolding sort_stamps
sort_stamps-IsAscending [] s h = h
sort_stamps-IsAscending (x ∷ l) s h =
    sort_stamps-IsAscending l (heap_push x s) (heap_push-IsAscending x s h)

take-IsAscending : (n : ℕ) (s : List Stamp) → IsAscending s → IsAscending (take n s)
take-IsAscending zero s h = tt
take-IsAscending (suc n) [] h = tt
take-IsAscending (suc n) (x ∷ s) h = (below n x.0 s h.0, take-IsAscending n s h.1)
  where
    below : (n b : ℕ) (s : List Stamp) → Below b s → Below b (take n s)
    below zero b s h = tt
    below (suc n) b [] h = tt
    below (suc n) b (x ∷ s) h = h

sort_by_touch_sorted : (s : List Stamp) → IsAscending s → sort_by_touch s ≡ s
unfolding sort_by_touch sorted_insert
sort_by_touch_sorted [] h = refl
sort_by_touch_sorted (x ∷ []) h = refl
sort_by_touch_sorted (x ∷ y ∷ s) h = rw (sort_by_touch_sorted (y ∷ s) h.1) (rw h.0 refl)

-- How often a stamp occurs.
abbrev pub count : Stamp → List Stamp → ℕ
count x [] = 0
count x (y ∷ s) = (if x.0 == y.0 && x.1 == y.1 then 1 else 0) + count x s

count-heap_push : (x y : Stamp) (s : List Stamp) → count x (heap_push y s) ≡ count x (y ∷ s)
unfolding heap_push
count-heap_push x y [] = refl
count-heap_push x y (z ∷ s) = elim (Bool-cases (stamp_le y z)) [
  | inl e ↦ rw e refl
  | inr e ↦ rw e (omega (arith, count-heap_push x y s))
]

count-sort_stamps :
    (x : Stamp) (l s : List Stamp) → count x (sort_stamps l s) ≡ count x l + count x s
unfolding sort_stamps
count-sort_stamps x [] s = omega arith
count-sort_stamps x (y ∷ l) s =
    omega (arith, count-sort_stamps x l (heap_push y s), count-heap_push x y s)

collected :
    (n : ℕ) (t : InodeTable)
    → sort_by_touch (collect_oldest n t.inodes []) ≡ take n (sort_stamps (idle_stamps t.inodes) [])
collected n t =
    let start : collect_oldest n t.inodes [] ≡ take n (sort_stamps (idle_stamps t.inodes) []) =
      ap (collect_oldest n t.inodes) (sym (take_nil n)) ∙ collect_oldest_lem n t.inodes [] in
    rw start (
      sort_by_touch_sorted (take n (sort_stamps (idle_stamps t.inodes) [])) (
        take-IsAscending n (sort_stamps (idle_stamps t.inodes) [])
          (sort_stamps-IsAscending (idle_stamps t.inodes) [] tt)))
  where
    take_nil : (n : ℕ) → take {A = Stamp} n [] ≡ []
    take_nil zero = refl
    take_nil (suc n) = refl

heap_cuts :
    (n : ℕ) (t : InodeTable)
    → lru_candidates n t ≡ resolve t (take n (sort_stamps (idle_stamps t.inodes) []))
unfolding lru_candidates resolve
heap_cuts zero t = refl
heap_cuts (suc n) t = ground (arith, ap (resolve t) (collected (suc n) t))

-- The candidates are the first `max` of all the idle files when these are sorted by their last
-- touch, from the oldest on: the heap of `max` members loses none of them.
pub lru_candidates_lem :
    (max : ℕ) (t : InodeTable)
    → (sorted : List Stamp) × IsAscending sorted
      × ((x : Stamp) → count x sorted ≡ count x (idle_stamps t.inodes))
      × (lru_candidates max t ≡ resolve t (take max sorted))
lru_candidates_lem max t = (
  sort_stamps (idle_stamps t.inodes) [],
  ascending,
  λ x. omega (arith, count-sort_stamps x (idle_stamps t.inodes) []),
  heap_cuts max t,
)
  where
    ascending : IsAscending (sort_stamps (idle_stamps t.inodes) [])
    ascending = sort_stamps-IsAscending (idle_stamps t.inodes) [] tt
