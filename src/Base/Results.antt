-- ===== src/Base/Results.antt =====
-- Rust's `Result` with `?` as the bind of a `do` block.
use mathlib.Core.Path.{◌≡◌, refl}
use mathlib.Core.Logic.{◌⊎◌, inl, inr}
use mathlib.Core.Option.{Option, none, some}

pub data Result {ℓ} (E A : Type ℓ) : Type ℓ where
  err : E → Result E A
  ok : A → Result E A

-- To split on a result and keep the equation.
pub Result-cases {ℓ} :
    {E A : Type ℓ} (r : Result E A) → ((a : A) × (r ≡ ok a)) ⊎ ((e : E) × (r ≡ err e))
Result-cases (err e) = inr (e, refl)
Result-cases (ok a) = inl (a, refl)

-- `Option::ok_or`.
abbrev pub ok_or {ℓ} : {E A : Type ℓ} → Option A → E → Result E A
ok_or none e = err e
ok_or (some a) e = ok a

-- The `?` operator: an error ends the function.
infixl 5 ◌>>=◌ ◌>>◌
abbrev pub ◌>>=◌ {ℓ} : {E A B : Type ℓ} → Result E A → (A → Result E B) → Result E B
r >>= k = elim r [ err e ↦ err e | ok a ↦ k a ]

abbrev pub ◌>>◌ {ℓ} : {E A B : Type ℓ} → Result E A → Result E B → Result E B
r >> s = r >>= λ _. s

-- A chain that succeeds has a first step that succeeds.
pub >>=-ok {ℓ} :
    {E A B : Type ℓ} (r : Result E A) (k : A → Result E B) {b : B} (succeeds : (r >>= k) ≡ ok b)
    → (a : A) × (r ≡ ok a) × (k a ≡ ok b)
>>=-ok (err e) k succeeds = cc
>>=-ok (ok a) k succeeds = (a, refl, succeeds)
