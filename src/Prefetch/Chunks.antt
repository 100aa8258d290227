-- ===== src/Prefetch/Chunks.antt =====
-- `read_chunk_range` against the bytes that the chunks hold.
use hf_mount_encrypted.Base.{
  ℕ, zero, suc, ◌+◌, ◌-◌, ◌≤◌, ◌≡◌, refl, sym, ap, ap₂, ◌∙◌, true, false, List, [], ◌∷◌, ◌++◌,
  length, take, drop, slice, min, ltb, leb, ◌==◌, if◌then◌else◌, arith, Bool-cases, inl, inr,
  append-nil, length-append, length-drop, take-min, slice_nil, take-append, drop-append, drop_past,
  take_past, drop-drop,
}
use hf_mount_encrypted.Prefetch.{read_rest, read_from, read_chunk_range, pop_consumed}

-- The chunks in one piece.
abbrev pub concat : List (List ℕ) → List ℕ
concat [] = []
concat (c ∷ cs) = c ++ concat cs

-- The bytes of the buffer: the first chunk counts from the front offset on.
abbrev pub contents : ℕ → List (List ℕ) → List ℕ
contents front [] = []
contents front (c ∷ cs) = drop front c ++ concat cs

pub contents_zero : (cs : List (List ℕ)) → contents 0 cs ≡ concat cs
contents_zero [] = refl
contents_zero (c ∷ cs) = refl

-- The inner loop cuts what the chunks hold.
read_rest-take : (n : ℕ) (cs : List (List ℕ)) → read_rest n cs ≡ take n (concat cs)
unfolding read_rest
read_rest-take zero [] = refl
read_rest-take (suc n) [] = refl
read_rest-take n (c ∷ cs) = elim (Bool-cases (n - min n (length c) == 0)) [
  | inl h ↦
      let small : n - length c ≡ 0 = ground (arith, h) in
      let rest : take (n - length c) (concat cs) ≡ [] = rw small refl in
      rw h (ap₂ ◌++◌ (take-min n c) (sym rest) ∙ sym (take-append n c (concat cs)))
  | inr h ↦
      let left : n - min n (length c) ≡ n - length c = ground (arith, h) in
      rw h (
        ap₂ ◌++◌ (take-min n c)
          (read_rest-take (n - min n (length c)) cs ∙ ap (λ (k : ℕ). take k (concat cs)) left)
        ∙ sym (take-append n c (concat cs)))
]

module _ (start off : ℕ) (c : List ℕ) (rest : List ℕ) where
  skip :
      drop off (drop start c ++ rest)
      ≡ drop (start + off) c ++ drop (off - length (drop start c)) rest
  skip =
      drop-append off (drop start c) rest
      ∙ ap (λ (l : List ℕ). l ++ drop (off - length (drop start c)) rest) (drop-drop off start c)

  skip_past :
      ltb off (length c - start) ≡ false
      → drop off (drop start c ++ rest) ≡ drop (off - (length c - start)) rest
  skip_past h =
      let gone : drop (start + off) c ≡ [] = drop_past (start + off) c (ground (arith, h)) in
      skip
      ∙ ap (λ (l : List ℕ). l ++ drop (off - length (drop start c)) rest) gone
      ∙ ap (λ (k : ℕ). drop (off - k) rest) (length-drop start c)

  skip_inside :
      ltb off (length c - start) ≡ true
      → drop off (drop start c ++ rest) ≡ drop (start + off) c ++ rest
  skip_inside h =
      let none_left : off - length (drop start c) ≡ 0 = ground (arith, h, length-drop start c) in
      skip ∙ ap (λ (k : ℕ). drop (start + off) c ++ drop k rest) none_left

-- One chunk and what follows it, cut to `count` bytes.
cut :
    (count k : ℕ) (c : List ℕ) (cs : List (List ℕ))
    → (if leb count (length c - k)
        then slice k count c
        else drop k c ++ read_rest (count - (length c - k)) cs)
      ≡ take count (drop k c ++ concat cs)
cut count k c cs = elim (Bool-cases (leb count (length c - k))) [
  | inl h ↦
      let fits : count - length (drop k c) ≡ 0 = ground (arith, h, length-drop k c) in
      let rest : take (count - length (drop k c)) (concat cs) ≡ [] = rw fits refl in
      rw h (
        sym (
          take-append count (drop k c) (concat cs)
          ∙ ap (λ (l : List ℕ). take count (drop k c) ++ l) rest
          ∙ append-nil (take count (drop k c))))
  | inr h ↦
      let whole : take count (drop k c) ≡ drop k c =
        take_past count (drop k c) (ground (arith, h, length-drop k c)) in
      let rest : read_rest (count - (length c - k)) cs
          ≡ take (count - length (drop k c)) (concat cs) =
        read_rest-take (count - (length c - k)) cs
        ∙ ap (λ (n : ℕ). take (count - n) (concat cs)) (sym (length-drop k c)) in
      rw h (sym (take-append count (drop k c) (concat cs) ∙ ap₂ ◌++◌ whole (sym rest)))
]

-- The loops cut what the chunks hold, from the front offset on.
read_from-slice :
    (start off count : ℕ) (cs : List (List ℕ))
    → read_from start off count cs ≡ slice off count (contents start cs)
unfolding read_from
read_from-slice start off count [] = sym (slice_nil off count)
read_from-slice start off count (c ∷ cs) = elim (Bool-cases (ltb off (length c - start))) [
  | inl h ↦
      rw h (
        cut count (start + off) c cs
        ∙ ap (take count) (sym (skip_inside start off c (concat cs) h)))
  | inr h ↦ rw h (
      read_from-slice 0 (off - (length c - start)) count cs
      ∙ ap (slice (off - (length c - start)) count) (contents_zero cs)
      ∙ ap (take count) (sym (skip_past start off c (concat cs) h)))
]

-- `read_chunk_range` hands out the bytes that the buffer holds from `skip` on, `count` of them or as
-- many as there are, in however many chunks they lie.
pub read_chunk_range-slice :
    (chunks : List (List ℕ)) (front skip count : ℕ)
    → read_chunk_range chunks front skip count ≡ slice skip count (contents front chunks)
unfolding read_chunk_range
read_chunk_range-slice chunks front skip count = elim (Bool-cases (count == 0)) [
  | inl h ↦
      let e : count ≡ 0 = ground (arith, h) in
      rw h (ap (λ (k : ℕ). take k (drop skip (contents front chunks))) (sym e))
  | inr h ↦ rw h (read_from-slice front skip count chunks)
]

-- The loop that pops `remaining` bytes leaves the others, and counts them.
pub pop_consumed-contents :
    (remaining : ℕ) (chunks : List (List ℕ)) (len front : ℕ)
    → contents
        (pop_consumed remaining chunks len front).2
        (pop_consumed remaining chunks len front).0
      ≡ drop remaining (contents front chunks)
unfolding pop_consumed
pop_consumed-contents remaining [] len front = sym (drop_past remaining [] (omega arith))
pop_consumed-contents remaining (c ∷ cs) len front = elim (Bool-cases (remaining == 0)) [
  | inl h ↦
      let e : remaining ≡ 0 = ground (arith, h) in
      rw h (ap (λ (k : ℕ). drop k (contents front (c ∷ cs))) (sym e))
  | inr h ↦ elim (Bool-cases (leb (length c - front) remaining)) [
    | inl k ↦
        rw (h, k)
          (pop_consumed-contents (remaining - (length c - front)) cs (len - (length c - front)) 0
            ∙ ap (drop (remaining - (length c - front))) (contents_zero cs)
            ∙ sym (skip_past front remaining c (concat cs) (ground (arith, k))))
    | inr k ↦ rw (h, k) (sym (skip_inside front remaining c (concat cs) (ground (arith, k))))
  ]
]

pub pop_consumed-len :
    (remaining : ℕ) (chunks : List (List ℕ)) (len front : ℕ)
    → len ≡ length (contents front chunks)
    → remaining ≤ len
    → (pop_consumed remaining chunks len front).1 ≡ len - remaining
unfolding pop_consumed
pop_consumed-len remaining [] len front counted enough = omega (arith, counted, enough)
pop_consumed-len remaining (c ∷ cs) len front counted enough = elim (Bool-cases (remaining == 0)) [
  | inl h ↦ rw h (ground (arith, h))
  | inr h ↦ elim (Bool-cases (leb (length c - front) remaining)) [
    | inl k ↦
        let total : len ≡ length c - front + length (concat cs) =
          counted
          ∙ length-append (drop front c) (concat cs)
          ∙ ap (λ (n : ℕ). n + length (concat cs)) (length-drop front c) in
        let left : len - (length c - front) ≡ length (contents 0 cs) =
          omega (arith, total, ap length (contents_zero cs)) in
        rw (h, k)
          (pop_consumed-len (remaining - (length c - front)) cs (len - (length c - front)) 0 left
              (ground (arith, k, enough))
            ∙ ground (arith, k, total, enough))
    | inr k ↦ rw (h, k) refl
  ]
]

-- The front offset lies in the first chunk.
abbrev pub FrontIn : ℕ → List (List ℕ) → Type 0
FrontIn front [] = Unit
FrontIn front (c ∷ cs) = front ≤ length c

pub zero-FrontIn : (cs : List (List ℕ)) → FrontIn 0 cs
zero-FrontIn [] = tt
zero-FrontIn (c ∷ cs) = omega arith

pub pop_consumed-FrontIn :
    (remaining : ℕ) (chunks : List (List ℕ)) (len front : ℕ)
    → FrontIn front chunks
    → FrontIn
        (pop_consumed remaining chunks len front).2
        (pop_consumed remaining chunks len front).0
unfolding pop_consumed
pop_consumed-FrontIn remaining [] len front inside = tt
pop_consumed-FrontIn remaining (c ∷ cs) len front inside = elim (Bool-cases (remaining == 0)) [
  | inl h ↦ rw h inside
  | inr h ↦ elim (Bool-cases (leb (length c - front) remaining)) [
    | inl k ↦
        rw (h, k)
          (pop_consumed-FrontIn (remaining - (length c - front)) cs (len - (length c - front)) 0
            (zero-FrontIn cs))
    | inr k ↦ rw (h, k) (ground (arith, k))
  ]
]
