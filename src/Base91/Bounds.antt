-- ===== src/Base91/Bounds.antt =====
-- src/base91.rs: what `encode` writes is short enough and safe in a file name.
use hf_mount_encrypted.Base.{
  ℕ, suc, ◌+◌, ◌*◌, ◌/◌, ◌%◌, ◌^◌, ◌≤◌, ◌<◌, bit_or, ◌≡◌, ◌≢◌, refl, inl, inr, true, ◌&&◌, not,
  List, [], ◌∷◌, arith, length, length-append, All, All-append, AreBytes, ltb, ◌==◌, if◌then◌else◌,
  Bool-cases,
}
use hf_mount_encrypted.Base.Bits.{all_below, all_below_sound, pow_le, pow-add}
use native.Mathlib.Nat.{mul-le-mul, mul-le-mul_right, le_trans}
use hf_mount_encrypted.Base91.{
  alphabet_at, shl32, push_pair, encoded_len_upper_bound, encode_step, encode_tail, encode_loop,
  encode,
}
use hf_mount_encrypted.Base91.Pairs.{or_shl32}
use hf_mount_encrypted.Base91.Step.{div_fits}

-- The bound of `encoded_len_upper_bound`, for a number of bits.
bits_bound : ℕ → ℕ
bits_bound m = if ltb 0 (m % 13) then m / 13 * 2 + 2 else m / 13 * 2

bits_bound_mono : (a b : ℕ) → a ≤ b → bits_bound a ≤ bits_bound b
unfolding bits_bound
bits_bound_mono a b h = ground arith

length-encode_tail : (acc n : ℕ) → n ≤ 13 → length (encode_tail acc n) ≤ bits_bound n
unfolding encode_tail bits_bound
length-encode_tail acc n h = ground arith

-- A round pushes two characters for thirteen bits or more, and else none.
length-encode_step :
    (acc n x m : ℕ)
    → length (encode_step acc n x).pushed + bits_bound ((encode_step acc n x).num_bits + m)
      ≤ bits_bound (n + 8 + m)
unfolding encode_step bits_bound
length-encode_step acc n x m = ground arith

few-encode_step : (acc n x : ℕ) → n ≤ 13 → (encode_step acc n x).num_bits ≤ 13
unfolding encode_step
few-encode_step acc n x h = ground arith

length-encode_loop :
    (src : List ℕ) (acc n : ℕ)
    → n ≤ 13
    → length (encode_loop acc n src) ≤ bits_bound (n + 8 * length src)
unfolding encode_loop
length-encode_loop [] acc n h =
    le_trans (length-encode_tail acc n h) (bits_bound_mono n (n + 8 * 0) (omega arith))
length-encode_loop (x ∷ xs) acc n h =
    let s = encode_step acc n x in
    omega (
      arith,
      length-append s.pushed (encode_loop s.acc s.num_bits xs),
      length-encode_loop xs s.acc s.num_bits (few-encode_step acc n x h),
      length-encode_step acc n x (8 * length xs),
      bits_bound_mono (n + 8 + 8 * length xs) (n + 8 * length (x ∷ xs)) (omega arith),
    )

-- The encoding of any byte string is no longer than `encoded_len_upper_bound` says.
pub length-encode-le : (src : List ℕ) → length (encode src) ≤ encoded_len_upper_bound (length src)
unfolding encode encoded_len_upper_bound bits_bound
length-encode-le src = ground (arith, length-encode_loop src 0 0)

-- No `/` and no NUL: the byte may stand in a file name.
abbrev pub IsFileNameByte : ℕ → Type 0
IsFileNameByte c = (c ≢ b'/') × (c ≢ 0)

safe_table : all_below 91 (λ i. not (alphabet_at i == b'/') && not (alphabet_at i == 0)) ≡ true
unfolding all_below alphabet_at
safe_table = refl

alphabet_at-IsFileNameByte : (i : ℕ) → i < 91 → IsFileNameByte (alphabet_at i)
alphabet_at-IsFileNameByte i h = ground (arith, all_below_sound 91 _ i h safe_table)

push_pair-safe : (v : ℕ) → v < 91 * 91 → All IsFileNameByte (push_pair v)
push_pair-safe v h =
    let low = alphabet_at-IsFileNameByte (v % 91) (omega arith) in
    let high = alphabet_at-IsFileNameByte (v / 91) (omega arith) in (low, (high, tt))

-- The bits that the accumulator holds fit in their number.
record Holds (acc n : ℕ) : Type 0 where
  fits : acc < 2 ^ n
  few : n ≤ 13

module _ {acc n : ℕ} (h : Holds acc n) (x : ℕ) (byte : x < 256) where
  appended : bit_or acc (shl32 x n) ≡ acc + x * 2 ^ n
  appended =
      let small : x * 2 ^ n ≤ 255 * 2 ^ 13 =
        mul-le-mul {n₂ = 255} (omega arith) (pow_le n 13 h.few) in
      or_shl32 n acc x h.fits (omega arith)

  grown_fits : acc + x * 2 ^ n < 2 ^ (n + 8)
  grown_fits =
      let below : suc x * 2 ^ n ≤ 256 * 2 ^ n = mul-le-mul_right (2 ^ n) byte in
      omega (arith, pow-add n 8, h.fits)

  encode_step-safe :
      All IsFileNameByte (encode_step acc n x).pushed
      × Holds (encode_step acc n x).acc (encode_step acc n x).num_bits
  unfolding encode_step
  encode_step-safe = elim (Bool-cases (ltb 13 (n + 8))) [
    | inl full ↦ elim (Bool-cases (ltb 88 ((acc + x * 2 ^ n) % 2 ^ 13))) [
      | inl high ↦
          rw (full, appended, high)
            (
              push_pair-safe ((acc + x * 2 ^ n) % 2 ^ 13) (omega arith),
              record {
                fits = div_fits (acc + x * 2 ^ n) (n + 8) 13 (ground arith) grown_fits;
                few = omega (arith, h.few);
              },
            )
      | inr low ↦
          rw (full, appended, low)
            (
              push_pair-safe ((acc + x * 2 ^ n) % 2 ^ 14) (ground arith),
              record {
                fits = div_fits (acc + x * 2 ^ n) (n + 8) 14 (ground arith) grown_fits;
                few = omega (arith, h.few);
              },
            )
    ]
    | inr room ↦ rw (room, appended) (tt, record { fits = grown_fits; few = ground arith })
  ]

encode_tail-safe : (acc n : ℕ) → Holds acc n → All IsFileNameByte (encode_tail acc n)
unfolding encode_tail
encode_tail-safe acc n h =
    let small : acc < 2 ^ 13 = le_trans h.fits (pow_le n 13 h.few) in
    ground (
      arith,
      alphabet_at-IsFileNameByte (acc % 91) (omega arith),
      alphabet_at-IsFileNameByte (acc / 91) (omega arith),
    )

encode_loop-safe :
    (src : List ℕ) (acc n : ℕ)
    → AreBytes src
    → Holds acc n
    → All IsFileNameByte (encode_loop acc n src)
unfolding encode_loop
encode_loop-safe [] acc n bs h = encode_tail-safe acc n h
encode_loop-safe (x ∷ xs) acc n bs h =
    let s = encode_step acc n x in
    let (safe, h') = encode_step-safe h x bs.0 in
    All-append IsFileNameByte s.pushed (encode_loop s.acc s.num_bits xs) safe
      (encode_loop-safe xs s.acc s.num_bits bs.1 h')

-- Every byte of the encoding may stand in a file name: none is `/` and none is NUL.
pub encode-IsFileName : (src : List ℕ) → AreBytes src → All IsFileNameByte (encode src)
unfolding encode
encode-IsFileName src bs =
    encode_loop-safe src 0 0 bs (record { fits = omega arith; few = omega arith })
