-- ===== src/Base/Eq.antt =====
-- Rust's `==` on keys, by instances.
use Prim.Native.Nat.{ℕ}
use mathlib.Core.Path.{◌≡◌, refl, ap₂}
use mathlib.Core.Logic.{◌↔◌}
use mathlib.Core.Bool.{Bool, true, false, ◌&&◌}
use mathlib.Core.List.{List, [], ◌∷◌}
use native.Mathlib.Omega.{arith}
use hf_mount_encrypted.Base.Tests.{◌==◌ as nat_eq, ==_iff}

pub record Eq {ℓ} (A : Type ℓ) : Type ℓ where
  pub same : A → A → Bool
  pub same_iff : (a b : A) → (same a b ≡ true) ↔ (a ≡ b)

infix 50 ◌==◌
abbrev pub ◌==◌ {ℓ} : {A : Type ℓ} ⦃e : Eq A⦄ → A → A → Bool
◌==◌ ⦃e⦄ = e.same

instance abbrev pub number_eq : Eq ℕ
number_eq = record { same = nat_eq; same_iff = ==_iff }

abbrev pub text_same : List ℕ → List ℕ → Bool
text_same [] [] = true
text_same [] (y ∷ ys) = false
text_same (x ∷ xs) [] = false
text_same (x ∷ xs) (y ∷ ys) = nat_eq x y && text_same xs ys

text_eq_of_same : (s t : List ℕ) → text_same s t ≡ true → s ≡ t
text_eq_of_same [] [] h = refl
text_eq_of_same [] (y ∷ ys) h = cc
text_eq_of_same (x ∷ xs) [] h = cc
text_eq_of_same (x ∷ xs) (y ∷ ys) h =
    ap₂ ◌∷◌ ((==_iff x y).0 (ground arith)) (text_eq_of_same xs ys (ground arith))

text_same_refl : (s : List ℕ) → text_same s s ≡ true
text_same_refl [] = refl
text_same_refl (x ∷ xs) = ground (arith, text_same_refl xs)

pub text_same_iff : (s t : List ℕ) → (text_same s t ≡ true) ↔ (s ≡ t)
text_same_iff s t = (text_eq_of_same s t, λ e. rw e (text_same_refl t))

instance abbrev pub text_eq : Eq (List ℕ)
text_eq = record { same = text_same; same_iff = text_same_iff }

module _ {ℓ} {A : Type ℓ} ⦃e : Eq A⦄ where
  pub eq_of_same : (a b : A) → (a == b) ≡ true → a ≡ b
  eq_of_same a b h = (e.same_iff a b).0 h

  pub same_refl : (a : A) → (a == a) ≡ true
  same_refl a = (e.same_iff a a).1 refl
