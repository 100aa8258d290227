-- ===== src/Base/Bits.antt =====
-- Laws of the native bit operations and of powers of two at variables.
use Prim.Native.Nat.{
  ℕ, zero, suc, ◌+◌, ◌-◌, ◌*◌, ◌/◌, ◌%◌, ◌^◌, ◌≤◌, ◌<◌, max, bit_or, digits, bit_or-bitwise,
}
use mathlib.Core.Path.{◌≡◌, refl, ap, ◌∙◌}
use mathlib.Core.Bool.{Bool, true, ◌&&◌}
use native.Mathlib.Omega.{arith}
use native.Mathlib.Nat.{pow-suc, pow-le-pow_right}

-- A test at every number below a bound, by evaluation.
unfoldable pub all_below : ℕ → (ℕ → Bool) → Bool
all_below zero test = true
all_below (suc bound) test = all_below bound test && test bound

pub all_below_sound :
    (bound : ℕ) (test : ℕ → Bool) (i : ℕ) → i < bound → all_below bound test ≡ true → test i ≡ true
unfolding all_below
all_below_sound zero test i in_range holds = absurd (omega arith)
all_below_sound (suc bound) test i in_range holds = ground (arith, all_below_sound bound test i)

-- The recursion on binary digits that `bit_or` stands for, and the fuel that it does not need.
abbrev digitwise_or : ℕ → ℕ → ℕ → ℕ
digitwise_or fuel x y = digits (λ rest. rest) max fuel x y

spare_fuel :
    (f g x y : ℕ) (enough_f : x ≤ f) (enough_g : x ≤ g) → digitwise_or f x y ≡ digitwise_or g x y
spare_fuel zero zero x y enough_f enough_g = refl
spare_fuel (suc f) zero zero y enough_f enough_g = refl
spare_fuel zero (suc g) zero y enough_f enough_g = refl
spare_fuel (suc f) (suc g) zero y enough_f enough_g = refl
spare_fuel (suc f) zero (suc x) y enough_f enough_g = absurd (omega arith)
spare_fuel zero (suc g) (suc x) y enough_f enough_g = absurd (omega arith)
spare_fuel (suc f) (suc g) (suc x) y enough_f enough_g =
    let half = suc x / 2 in omega (arith, spare_fuel f g half (y / 2) (omega arith) (omega arith))

pub zero-bit_or : (y : ℕ) → bit_or 0 y ≡ y
zero-bit_or y = bit_or-bitwise 0 y

-- The lowest digit of `|` is the greater of the two.
pub bit_or_step : (x y : ℕ) → bit_or x y ≡ bit_or (x / 2) (y / 2) * 2 + max (x % 2) (y % 2)
bit_or_step zero y = omega (arith, zero-bit_or (y / 2), zero-bit_or y)
bit_or_step (suc x) y =
    let half = suc x / 2 in
    let whole = bit_or-bitwise (suc x) y in
    let shifted = bit_or-bitwise half (y / 2) in
    omega (arith, whole, shifted, spare_fuel x half half (y / 2) (omega arith) (omega arith))

-- Where the bits do not overlap, `|` is `+`.
pub bit_or_disjoint : (k a x : ℕ) → a < 2 ^ k → bit_or a (x * 2 ^ k) ≡ a + x * 2 ^ k
bit_or_disjoint zero zero x h = omega (arith, zero-bit_or (x * 2 ^ zero))
bit_or_disjoint zero (suc a) x h = absurd (omega arith)
bit_or_disjoint (suc k) a x h =
    let double : 2 ^ suc k ≡ 2 ^ k * 2 = pow-suc 2 k in
    let shifted : x * 2 ^ suc k ≡ x * 2 ^ k * 2 = omega (arith, ap (λ (t : ℕ). x * t) double) in
    let halved : x * 2 ^ k * 2 / 2 ≡ x * 2 ^ k = omega arith in
    let rest : bit_or (a / 2) (x * 2 ^ k * 2 / 2) ≡ a / 2 + x * 2 ^ k =
      rw halved (bit_or_disjoint k (a / 2) x (omega arith)) in
    rw shifted (omega (arith, bit_or_step a (x * 2 ^ k * 2)))

pub pow-add : (a b : ℕ) → 2 ^ (a + b) ≡ 2 ^ a * 2 ^ b
pow-add zero b = let e : zero + b ≡ b = omega arith in rw e (omega arith)
pow-add (suc a) b =
    let e : suc a + b ≡ suc (a + b) = omega arith in
    rw e (
      omega (
        arith,
        pow-suc 2 (a + b),
        pow-suc 2 a,
        pow-add a b,
        ap (λ (t : ℕ). t * 2 ^ b) (pow-suc 2 a),
      ))

pub pow_le : (a b : ℕ) → a ≤ b → 2 ^ a ≤ 2 ^ b
pow_le a b h = pow-le-pow_right (omega arith) h

-- A multiple of a power, with `m` of its factors 2 taken out.
pub mul-pow_split : (c k m : ℕ) → m ≤ k → c * 2 ^ k ≡ c * 2 ^ (k - m) * 2 ^ m
mul-pow_split c k m h =
    let e : k ≡ k - m + m = omega arith in
    let split : 2 ^ k ≡ 2 ^ (k - m) * 2 ^ m = ap (λ (t : ℕ). 2 ^ t) e ∙ pow-add (k - m) m in
    omega (arith, ap (λ (t : ℕ). c * t) split)
