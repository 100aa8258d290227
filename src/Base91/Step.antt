-- ===== src/Base91/Step.antt =====
-- src/base91.rs: a round of `encode` and the rounds of `decode` that follow it keep one relation
-- between the two states.
use hf_mount_encrypted.Base.{
  ℕ, suc, ◌+◌, ◌-◌, ◌*◌, ◌/◌, ◌%◌, ◌^◌, ◌≤◌, ◌<◌, bit_or, ◌≡◌, refl, sym, ap, ◌∙◌, inl, inr, ◌⊎◌,
  none, List, [], ◌∷◌, ◌++◌, arith, length, length-append, All-append, AreBytes, ltb, if◌then◌else◌,
  Bool-cases,
}
use hf_mount_encrypted.Base.Bits.{pow-add, pow_le, mul-pow_split}
use hf_mount_encrypted.Base.Results.{ok, err, ◌>>=◌}
use native.Mathlib.Nat.{
  mul-le-mul, mul-le-mul_right, le_trans, mod-lt, div-add-mod, lt_of_mul-lt-mul_right,
}
use hf_mount_encrypted.Base91.{
  shl32, push_pair, EncodeStep, encode_step, DecodeStep, decode_pair, decode_loop,
}
use hf_mount_encrypted.Base91.Pairs.{value, value_snoc, or_shl32, decode_pair_lem}
use hf_mount_encrypted.Base91.Alphabet.{feed, decode_push_pair}

-- The encoder holds `acc`, the decoder `b`, and `P` are the bytes on the way between them.
pub record Link (acc n b k : ℕ) (P : List ℕ) : Type 0 where
  pub split : b + acc * 2 ^ k ≡ value P
  pub bits : 8 * length P ≡ k + n
  pub acc_fits : acc < 2 ^ n
  pub b_fits : b < 2 ^ k
  pub few_n : n ≤ 13
  pub few_k : k ≤ 7
  pub are_bytes : AreBytes P

feed-nil :
    (b k : ℕ) (rest : List ℕ)
    → feed (record { pushed = []; b = b; num_bits = k }) rest ≡ decode_loop none b k rest
unfolding feed
feed-nil b k rest = elim (decode_loop none b k rest) as (λ r. (do t ← r; ok ([] ++ t)) ≡ r) [
  | ok r ↦ refl
  | err e ↦ refl
]

-- A round of `encode` that ends in `s`, and the decoder that follows it.
pub record Follows (s : EncodeStep) (b k : ℕ) (P : List ℕ) (x : ℕ) (d : DecodeStep) (Q : List ℕ)
    : Type 0 where
  pub reads : (rest : List ℕ) → decode_loop none b k (s.pushed ++ rest) ≡ feed d rest
  pub joined : d.pushed ++ Q ≡ P ++ x ∷ []
  pub link : Link s.acc s.num_bits d.b d.num_bits Q

pub small_pair :
    (v w : ℕ)
    → (w ≡ 13) ⊎ (w ≡ 14)
    → (if ltb 88 (v % 2 ^ 13) then 13 else 14) ≡ w
    → v < 2 ^ w
    → v < 91 * 91
small_pair v w (inl e) same fits = let f : v < 2 ^ 13 = rw e at fits in omega arith
small_pair v w (inr e) same fits = let f : v < 2 ^ 14 = rw e at fits in ground arith

pub div_fits : (g m w : ℕ) → w ≤ m → g < 2 ^ m → g / 2 ^ w < 2 ^ (m - w)
div_fits g m w h fits =
    let split : 1 * 2 ^ m ≡ 1 * 2 ^ (m - w) * 2 ^ w = mul-pow_split 1 m w h in
    lt_of_mul-lt-mul_right (2 ^ w) (omega (arith, div-add-mod g (2 ^ w)))

module _ {acc n b k : ℕ} {P : List ℕ} (link : Link acc n b k P) (x : ℕ) (byte : x < 256) where
  appended : bit_or acc (shl32 x n) ≡ acc + x * 2 ^ n
  appended =
      let small : x * 2 ^ n ≤ 255 * 2 ^ 13 =
        mul-le-mul {n₂ = 255} (omega arith) (pow_le n 13 link.few_n) in
      or_shl32 n acc x link.acc_fits (omega arith)

  grown_split : b + (acc + x * 2 ^ n) * 2 ^ k ≡ value (P ++ x ∷ [])
  grown_split =
      let size : 2 ^ (8 * length P) ≡ 2 ^ k * 2 ^ n = rw link.bits (pow-add k n) in
      omega (arith, link.split, value_snoc P x, ap (λ (t : ℕ). x * t) size)

  grown_fits : acc + x * 2 ^ n < 2 ^ (n + 8)
  grown_fits =
      let below : suc x * 2 ^ n ≤ 256 * 2 ^ n = mul-le-mul_right (2 ^ n) byte in
      omega (arith, pow-add n 8, link.acc_fits)

  grown_bytes : AreBytes (P ++ x ∷ [])
  grown_bytes = All-append (λ y. y < 256) P (x ∷ []) link.are_bytes (byte, tt)

  -- A round that pushes `w` bits.
  emit :
      (w : ℕ)
      → (w ≡ 13) ⊎ (w ≡ 14)
      → (if ltb 88 ((acc + x * 2 ^ n) % 2 ^ w % 2 ^ 13) then 13 else 14) ≡ w
      → 5 < n
      → (d : DecodeStep) × (Q : List ℕ) × Follows
          (record {
            pushed = push_pair ((acc + x * 2 ^ n) % 2 ^ w);
            acc = (acc + x * 2 ^ n) / 2 ^ w;
            num_bits = n + 8 - w;
          })
          b
          k
          P
          x
          d
          Q
  emit w width same full =
      let g = acc + x * 2 ^ n in
      let v = g % 2 ^ w in
      let v_fits : v < 2 ^ w = mod-lt g (le_trans (omega arith) (pow_le 0 w (omega arith))) in
      let parts : v + g / 2 ^ w * 2 ^ w ≡ g = omega (arith, div-add-mod g (2 ^ w)) in
      let small : v < 91 * 91 = small_pair v w width same v_fits in
      let sizes : length (P ++ x ∷ []) ≡ length P + 1 = length-append P (x ∷ []) in
      let (Q, popped) =
        decode_pair_lem v w b k (g / 2 ^ w) (P ++ x ∷ []) width same grown_bytes v_fits link.b_fits
          link.few_k (rw parts grown_split) (omega (arith, link.bits)) in
      let left : length (decode_pair (v % 91) (v / 91) b k).pushed + length Q ≡ length P + 1 =
        sym (length-append _ Q) ∙ ap length popped.joined ∙ sizes in
      (
        decode_pair (v % 91) (v / 91) b k,
        Q,
        record {
          reads = λ rest. decode_push_pair v b k rest small;
          joined = popped.joined;
          link = record {
            split = popped.split;
            bits = omega (arith, link.bits, popped.bits);
            acc_fits = div_fits g (n + 8) w (omega arith) grown_fits;
            b_fits = popped.b_fits;
            few_n = omega (arith, link.few_n);
            few_k = popped.few;
            are_bytes = popped.are_bytes;
          };
        },
      )

  -- Every round keeps the link.
  pub encode_step-Link : (d : DecodeStep) × (Q : List ℕ) × Follows (encode_step acc n x) b k P x d Q
  unfolding encode_step
  encode_step-Link = elim (Bool-cases (ltb 13 (n + 8))) [
    | inl full ↦ elim (Bool-cases (ltb 88 ((acc + x * 2 ^ n) % 2 ^ 13))) [
      | inl high ↦
          let e : (acc + x * 2 ^ n) % 2 ^ 13 % 2 ^ 13 ≡ (acc + x * 2 ^ n) % 2 ^ 13 = omega arith in
          rw (full, appended, high) (emit 13 (inl refl) (rw (e, high)) (ground arith))
      | inr low ↦
          let e : (acc + x * 2 ^ n) % 2 ^ 14 % 2 ^ 13 ≡ (acc + x * 2 ^ n) % 2 ^ 13 = omega arith in
          rw (full, appended, low) (emit 14 (inr refl) (rw (e, low)) (ground arith))
    ]
    | inr room ↦
        rw (room, appended)
          (
            record { pushed = []; b = b; num_bits = k },
            P ++ x ∷ [],
            record {
              reads = λ rest. sym (feed-nil b k rest);
              joined = refl;
              link = record {
                split = grown_split;
                bits = omega (arith, length-append P (x ∷ []), link.bits);
                acc_fits = grown_fits;
                b_fits = link.b_fits;
                few_n = ground arith;
                few_k = link.few_k;
                are_bytes = grown_bytes;
              };
            },
          )
  ]
