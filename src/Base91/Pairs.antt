-- ===== src/Base91/Pairs.antt =====
-- src/base91.rs: the inner loop of `decode` takes back the bytes that a pair of characters carries.
use hf_mount_encrypted.Base.{
  ℕ, zero, suc, ◌+◌, ◌-◌, ◌*◌, ◌/◌, ◌%◌, ◌^◌, ◌≤◌, ◌<◌, bit_or, ◌≡◌, ap, ap₂, inl, inr, ◌⊎◌, List,
  [], ◌∷◌, ◌++◌, arith, length, AreBytes, ltb, leb, if◌then◌else◌, Bool-cases, leb→le,
}
use hf_mount_encrypted.Base.Bits.{bit_or_disjoint, pow-add, pow_le, mul-pow_split}
use native.Mathlib.Nat.{mod-eq_of_lt, le_trans, mul-le-mul, mul-le-mul_right}
use hf_mount_encrypted.Base91.{shl32, DecodeStep, pop_bytes, decode_pair}

-- The number that a byte string spells, its first byte lowest.
unfoldable pub value : List ℕ → ℕ
value [] = 0
value (x ∷ xs) = x + 256 * value xs

pub value_snoc : (xs : List ℕ) (x : ℕ) → value (xs ++ x ∷ []) ≡ value xs + x * 2 ^ (8 * length xs)
unfolding value
value_snoc [] x = omega arith
value_snoc (y ∷ ys) x =
    let split : 2 ^ (8 * suc (length ys)) ≡ 256 * 2 ^ (8 * length ys) =
      let e : 8 * suc (length ys) ≡ 8 + 8 * length ys = omega arith in rw e (pow-add 8 _) in
    omega (arith, value_snoc ys x, ap (λ (t : ℕ). x * t) split)

-- `x << n` loses no bit, and `|` is then a sum.
pub or_shl32 : (n a x : ℕ) → a < 2 ^ n → x * 2 ^ n < 2 ^ 32 → bit_or a (shl32 x n) ≡ a + x * 2 ^ n
or_shl32 n a x h fits = rw (mod-eq_of_lt fits) (bit_or_disjoint n a x h)

-- What the inner loop of `decode` leaves, `b` standing for the low bits of `P` and `c` for the rest.
pub record Popped (k c : ℕ) (P : List ℕ) (s : DecodeStep) (Q : List ℕ) : Type 0 where
  pub joined : s.pushed ++ Q ≡ P
  pub split : s.b + c * 2 ^ s.num_bits ≡ value Q
  pub bits : s.num_bits + 8 * length s.pushed ≡ k
  pub few : s.num_bits ≤ 7
  pub b_fits : s.b < 2 ^ s.num_bits
  pub are_bytes : AreBytes Q

-- A round of that loop takes the lowest byte.
low_byte :
    (k b c p V : ℕ)
    → 8 ≤ k
    → p < 256
    → b + c * 2 ^ k ≡ p + 256 * V
    → b < 2 ^ k
    → (b % 256 ≡ p) × (b / 256 + c * 2 ^ (k - 8) ≡ V) × (b / 256 < 2 ^ (k - 8))
low_byte k b c p V h small split fits =
    let spread : c * 2 ^ k ≡ c * 2 ^ (k - 8) * 256 = mul-pow_split c k 8 h in
    let power : 1 * 2 ^ k ≡ 1 * 2 ^ (k - 8) * 256 = mul-pow_split 1 k 8 h in omega arith

pop_bytes_lem :
    (fuel b k c : ℕ) (P : List ℕ)
    → AreBytes P
    → b + c * 2 ^ k ≡ value P
    → b < 2 ^ k
    → 8 ≤ k
    → k ≤ 8 * length P + 7
    → k ≤ fuel
    → (Q : List ℕ) × Popped k c P (pop_bytes fuel b k) Q
unfolding pop_bytes value
pop_bytes_lem zero b k c P bs split fits many room h = absurd (omega arith)
pop_bytes_lem (suc fuel) b k c [] bs split fits many room h = absurd (omega arith)
pop_bytes_lem (suc fuel) b k c (p ∷ P) bs split fits many room h =
    let (first, rest, fits') = low_byte k b c p (value P) many bs.0 split fits in
    elim (Bool-cases (leb (k - 8) 7)) [
      | inl last ↦
          rw (last, pop_bytes)
            (
              P,
              record {
                joined = ap (λ (t : ℕ). t ∷ P) first;
                split = rest;
                bits = omega arith;
                few = leb→le (k - 8) 7 last;
                b_fits = fits';
                are_bytes = bs.1;
              },
            )
      | inr more ↦
          let (Q, popped) =
            pop_bytes_lem fuel (b / 256) (k - 8) c P bs.1 rest fits' (ground arith) (omega arith)
              (omega arith) in
          rw (more, pop_bytes)
            (
              Q,
              record {
                joined = ap₂ (λ (t : ℕ) (l : List ℕ). t ∷ l) first popped.joined;
                split = popped.split;
                bits = omega (arith, popped.bits);
                few = popped.few;
                b_fits = popped.b_fits;
                are_bytes = popped.are_bytes;
              },
            )
    ]

-- `a` is what a pair of characters carries; the decoder adds it and pops the whole bytes.
pub decode_pair_lem :
    (v w b k c : ℕ) (P : List ℕ)
    → (w ≡ 13) ⊎ (w ≡ 14)
    → (if ltb 88 (v % 2 ^ 13) then 13 else 14) ≡ w
    → AreBytes P
    → v < 2 ^ w
    → b < 2 ^ k
    → k ≤ 7
    → b + (v + c * 2 ^ w) * 2 ^ k ≡ value P
    → k + w ≤ 8 * length P + 7
    → (Q : List ℕ) × Popped (k + w) c P (decode_pair (v % 91) (v / 91) b k) Q
unfolding decode_pair
decode_pair_lem v w b k c P width same bs v_fits b_fits few split room =
    let whole : v % 91 + v / 91 * 91 ≡ v = omega arith in
    let power : 2 ^ (k + w) ≡ 2 ^ k * 2 ^ w = pow-add k w in
    let within : v < 2 ^ 14 = le_trans v_fits (pow_le w 14 (omega arith)) in
    let fits : v * 2 ^ k ≤ (2 ^ 14 - 1) * 2 ^ 7 =
      mul-le-mul {n₂ = 2 ^ 14 - 1} (omega arith) (pow_le k 7 few) in
    let joined : bit_or b (shl32 v k) ≡ b + v * 2 ^ k = or_shl32 k b v b_fits (omega arith) in
    let below : suc v * 2 ^ k ≤ 2 ^ w * 2 ^ k = mul-le-mul_right (2 ^ k) v_fits in
    let split' : b + v * 2 ^ k + c * 2 ^ (k + w) ≡ value P =
      omega (arith, ap (λ (t : ℕ). c * t) power) in
    let low : b + v * 2 ^ k < 2 ^ (k + w) = omega arith in
    let many : 8 ≤ k + w = omega arith in
    let enough : k + w ≤ k + w = omega arith in
    rw (whole, same, joined)
      (pop_bytes_lem (k + w) (b + v * 2 ^ k) (k + w) c P bs split' low many room enough)
