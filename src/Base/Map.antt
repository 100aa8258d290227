-- ===== src/Base/Map.antt =====
-- A `HashMap` as an association list that holds a key at most once. `values()` runs in the order of
-- the list; the source leaves that order open.
use mathlib.Core.Path.{◌≡◌}
use mathlib.Core.Logic.{inl, inr}
use mathlib.Core.Option
use mathlib.Core.Option.{Option, none, some}
use mathlib.Core.List.{List, [], ◌∷◌}
use native.Mathlib.Omega.{arith}
use hf_mount_encrypted.Base.Tests.{if◌then◌else◌, Bool-cases}
use hf_mount_encrypted.Base.Eq.{Eq, ◌==◌}

module _ {ℓ κ} {K : Type ℓ} {V : Type κ} ⦃e : Eq K⦄ where
  -- `get`
  unfoldable pub find : K → List (K × V) → Option V
  find k [] = none
  find k ((j, v) ∷ m) = if k == j then some v else find k m

  -- `remove`
  unfoldable pub erase : K → List (K × V) → List (K × V)
  erase k [] = []
  erase k ((j, v) ∷ m) = let rest = erase k m in if k == j then rest else (j, v) ∷ rest

  -- `insert`
  unfoldable pub put : K → V → List (K × V) → List (K × V)
  unfolding erase
  put k v m = (k, v) ∷ erase k m

  -- `if let Some(v) = get_mut(k) { *v = f(v) }`
  unfoldable pub modify : K → (V → V) → List (K × V) → List (K × V)
  modify k f [] = []
  modify k f ((j, v) ∷ m) = (j, if k == j then f v else v) ∷ modify k f m

  pub find-erase :
      (k j : K) (m : List (K × V)) → find j (erase k m) ≡ (if k == j then none else find j m)
  unfolding find erase
  find-erase k j [] = elim (Bool-cases (k == j)) [ inl h ↦ rw h | inr h ↦ rw h ]
  find-erase k j ((i, v) ∷ m) =
      ground (arith, find-erase k j m, e.same_iff k j, e.same_iff k i, e.same_iff j i)

  pub find-put :
      (k j : K) (v : V) (m : List (K × V))
      → find j (put k v m) ≡ (if k == j then some v else find j m)
  unfolding find put
  find-put k j v m = ground (arith, find-erase k j m, e.same_iff k j, e.same_iff j k)

  pub find-modify :
      (k j : K) (f : V → V) (m : List (K × V))
      → find j (modify k f m) ≡ (if k == j then Option.map f (find j m) else find j m)
  unfolding find modify
  find-modify k j f [] = elim (Bool-cases (k == j)) [ inl h ↦ rw h | inr h ↦ rw h ]
  find-modify k j f ((i, v) ∷ m) =
      ground (arith, find-modify k j f m, e.same_iff k j, e.same_iff k i, e.same_iff j i)
