-- ===== src/Base/Lists.antt =====
-- Lists over the native numbers, under the library's names, and predicates on their members.
use Prim.Native.Nat.{ℕ, zero, suc, ◌+◌, ◌-◌, ◌≤◌, ◌<◌, min}
use mathlib.Core.Path.{◌≡◌, refl, sym, ap, ap₂, ◌∙◌}
use mathlib.Core.List.{List, [], ◌∷◌, ◌++◌}
use mathlib.Core.Option.{Option, none, some}
use mathlib.Core.Logic.{inl, inr}
use native.Mathlib.Omega.{arith}
use hf_mount_encrypted.Base.Tests.{leb, Bool-cases}

module _ {ℓ} {A : Type ℓ} where
  abbrev pub length : List A → ℕ
  length [] = 0
  length (x ∷ xs) = suc (length xs)

  abbrev pub get_elem? : List A → ℕ → Option A
  get_elem? [] i = none
  get_elem? (x ∷ xs) zero = some x
  get_elem? (x ∷ xs) (suc i) = get_elem? xs i

  abbrev pub get_or : List A → ℕ → A → A
  get_or [] i d = d
  get_or (x ∷ xs) zero d = x
  get_or (x ∷ xs) (suc i) d = get_or xs i d

  -- A write out of bounds changes nothing.
  abbrev pub set : List A → ℕ → A → List A
  set [] i v = []
  set (x ∷ xs) zero v = v ∷ xs
  set (x ∷ xs) (suc i) v = x ∷ set xs i v

  abbrev pub take : ℕ → List A → List A
  take zero xs = []
  take (suc n) [] = []
  take (suc n) (x ∷ xs) = x ∷ take n xs

  abbrev pub drop : ℕ → List A → List A
  drop zero xs = xs
  drop (suc n) [] = []
  drop (suc n) (x ∷ xs) = drop n xs

  abbrev pub replicate : ℕ → A → List A
  replicate zero a = []
  replicate (suc n) a = a ∷ replicate n a

  pub length-append : (xs ys : List A) → length (xs ++ ys) ≡ length xs + length ys
  length-append [] ys = omega arith
  length-append (x ∷ xs) ys = omega (arith, length-append xs ys)

  pub length-replicate : (n : ℕ) (a : A) → length (replicate n a) ≡ n
  length-replicate zero a = refl
  length-replicate (suc n) a = ap suc (length-replicate n a)

  pub take-append-drop : (n : ℕ) (xs : List A) → take n xs ++ drop n xs ≡ xs
  take-append-drop zero xs = refl
  take-append-drop (suc n) [] = refl
  take-append-drop (suc n) (x ∷ xs) = rw (take-append-drop n xs)

  pub length-take : (n : ℕ) (xs : List A) → length (take n xs) ≡ min n (length xs)
  length-take zero xs = omega arith
  length-take (suc n) [] = omega arith
  length-take (suc n) (x ∷ xs) = omega (arith, length-take n xs)

  pub length-drop : (n : ℕ) (xs : List A) → length (drop n xs) ≡ length xs - n
  length-drop zero xs = omega arith
  length-drop (suc n) [] = omega arith
  length-drop (suc n) (x ∷ xs) = omega (arith, length-drop n xs)

module _ {ℓ κ} {A : Type ℓ} where
  -- Every member of the list has the property.
  abbrev pub All : (A → Type κ) → List A → Type κ
  All P [] = Unit
  All P (x ∷ xs) = P x × All P xs

module _ {ℓ κ} {A : Type ℓ} (P : A → Type κ) where
  pub All-append : (xs ys : List A) → All P xs → All P ys → All P (xs ++ ys)
  All-append [] ys h k = k
  All-append (x ∷ xs) ys h k = (h.0, All-append xs ys h.1 k)

-- The members are bytes.
abbrev pub AreBytes : List ℕ → Type 0
AreBytes = All (λ x. x < 256)

module _ {ℓ} {A : Type ℓ} where
  pub drop-take : (i m : ℕ) (l : List A) → drop i (take (i + m) l) ≡ take m (drop i l)
  drop-take zero m l = let e : zero + m ≡ m = omega arith in rw e
  drop-take (suc i) m [] = let e : suc i + m ≡ suc (i + m) = omega arith in rw e (take_nil m)
    where
      take_nil : (m : ℕ) → [] ≡ take {A = A} m []
      take_nil zero = refl
      take_nil (suc m) = refl
  drop-take (suc i) m (x ∷ l) =
      let e : suc i + m ≡ suc (i + m) = omega arith in rw e (drop-take i m l)

  pub take-take : (n m : ℕ) (l : List A) → take n (take (n + m) l) ≡ take n l
  take-take zero m l = refl
  take-take (suc n) m [] = let e : suc n + m ≡ suc (n + m) = omega arith in rw e
  take-take (suc n) m (x ∷ l) =
      let e : suc n + m ≡ suc (n + m) = omega arith in rw e (ap (◌∷◌ x) (take-take n m l))

  pub drop-drop : (i j : ℕ) (l : List A) → drop i (drop j l) ≡ drop (j + i) l
  drop-drop i zero l = let e : zero + i ≡ i = omega arith in rw e
  drop-drop zero (suc j) [] = let e : suc j + zero ≡ suc j = omega arith in rw e
  drop-drop (suc i) (suc j) [] = let e : suc j + suc i ≡ suc (j + suc i) = omega arith in rw e
  drop-drop i (suc j) (x ∷ l) =
      let e : suc j + i ≡ suc (j + i) = omega arith in rw e (drop-drop i j l)

  -- `&bytes[start..start + len]`
  abbrev pub slice : ℕ → ℕ → List A → List A
  slice start len bytes = take len (drop start bytes)

  -- A slice of a slice is a slice of the whole.
  pub slice-slice :
      (i n j m : ℕ) (l : List A) → i + n ≤ m → slice i n (slice j m l) ≡ slice (j + i) n l
  slice-slice i n j m l h =
      let first : m ≡ i + (m - i) = omega arith in
      let second : m - i ≡ n + (m - i - n) = omega arith in
      ap (λ (k : ℕ). take n (drop i (take k (drop j l)))) first
      ∙ ap (take n) (drop-take i (m - i) (drop j l))
      ∙ ap (λ (k : ℕ). take n (take k (drop i (drop j l)))) second
      ∙ take-take n (m - i - n) (drop i (drop j l))
      ∙ ap (take n) (drop-drop i j l)

  pub length-slice : (i n : ℕ) (l : List A) → i + n ≤ length l → length (slice i n l) ≡ n
  length-slice i n l h = omega (arith, length-take n (drop i l), length-drop i l)

  pub take-append :
      (n : ℕ) (xs ys : List A) → take n (xs ++ ys) ≡ take n xs ++ take (n - length xs) ys
  take-append zero [] ys = refl
  take-append zero (x ∷ xs) ys = let e : zero - length (x ∷ xs) ≡ zero = omega arith in rw e
  take-append (suc n) [] ys = let e : suc n - zero ≡ suc n = omega arith in rw e
  take-append (suc n) (x ∷ xs) ys =
      let e : suc n - suc (length xs) ≡ n - length xs = omega arith in
      rw e (ap (◌∷◌ x) (take-append n xs ys))

  pub drop-append :
      (n : ℕ) (xs ys : List A) → drop n (xs ++ ys) ≡ drop n xs ++ drop (n - length xs) ys
  drop-append zero [] ys = refl
  drop-append zero (x ∷ xs) ys = let e : zero - length (x ∷ xs) ≡ zero = omega arith in rw e
  drop-append (suc n) [] ys = let e : suc n - zero ≡ suc n = omega arith in rw e
  drop-append (suc n) (x ∷ xs) ys =
      let e : suc n - suc (length xs) ≡ n - length xs = omega arith in rw e (drop-append n xs ys)

  pub drop_past : (n : ℕ) (xs : List A) → length xs ≤ n → drop n xs ≡ []
  drop_past zero [] h = refl
  drop_past zero (x ∷ xs) h = absurd (omega (arith, h))
  drop_past (suc n) [] h = refl
  drop_past (suc n) (x ∷ xs) h = drop_past n xs (omega (arith, h))

  pub take_past : (n : ℕ) (xs : List A) → length xs ≤ n → take n xs ≡ xs
  take_past zero [] h = refl
  take_past zero (x ∷ xs) h = absurd (omega (arith, h))
  take_past (suc n) [] h = refl
  take_past (suc n) (x ∷ xs) h = ap (◌∷◌ x) (take_past n xs (omega (arith, h)))

  pub slice_nil : (i n : ℕ) → slice i n [] ≡ []
  slice_nil zero zero = refl
  slice_nil zero (suc n) = refl
  slice_nil (suc i) zero = refl
  slice_nil (suc i) (suc n) = refl

  -- Two slices that meet are one.
  pub slice-append :
      (i n m : ℕ) (l : List A)
      → i + n ≤ length l
      → slice i n l ++ slice (i + n) m l ≡ slice i (n + m) l
  slice-append i n m l h =
      let back : drop n (drop i l) ≡ drop (i + n) l = drop-drop n i l in
      let first : take n (take (n + m) (drop i l)) ≡ take n (drop i l) = take-take n m (drop i l) in
      let second : drop n (take (n + m) (drop i l)) ≡ take m (drop n (drop i l)) =
        drop-take n m (drop i l) in
      sym (ap₂ ◌++◌ first (second ∙ ap (take m) back))
      ∙ take-append-drop n (take (n + m) (drop i l))

  pub take-min : (n : ℕ) (xs : List A) → take (min n (length xs)) xs ≡ take n xs
  take-min n xs = elim (Bool-cases (leb n (length xs))) [
    | inl h ↦ ap (λ (k : ℕ). take k xs) (ground (arith, h))
    | inr h ↦
        let all : min n (length xs) ≡ length xs = ground (arith, h) in
        ap (λ (k : ℕ). take k xs) all
        ∙ take_past (length xs) xs (omega arith)
        ∙ sym (take_past n xs (ground (arith, h)))
  ]
