-- ===== src/Base91/RoundTrip.antt =====
-- src/base91.rs: `decode` inverts `encode`.
use hf_mount_encrypted.Base.{
  ℕ, ◌+◌, ◌*◌, ◌/◌, ◌%◌, ◌^◌, ◌≤◌, ◌<◌, bit_or, ◌≡◌, refl, sym, ap, ◌∙◌, inl, inr, ◌⊎◌, true, false,
  ◌||◌, none, some, List, [], ◌∷◌, ◌++◌, append-nil, append_assoc, arith, length, length-append,
  AreBytes, ltb, leb, if◌then◌else◌, Bool-cases, leb→le,
}
use hf_mount_encrypted.Base.Bits.{pow_le}
use hf_mount_encrypted.Base.Results.{ok}
use native.Mathlib.Nat.{le_trans}
use hf_mount_encrypted.Base91.{
  shl32, encode_step, encode_tail, encode_loop, encode, DecodeStep, decode_pair, decode_tail,
  decode_loop, decode,
}
use hf_mount_encrypted.Base91.Pairs.{value, or_shl32, Popped, decode_pair_lem}
use hf_mount_encrypted.Base91.Alphabet.{feed, decode_one, decode_push_pair}
use hf_mount_encrypted.Base91.Step.{Link, encode_step-Link}

-- The end of the input: nothing is left over, one character carries a byte, or a pair does.
empty_tail :
    {acc n b k : ℕ} (P : List ℕ) → Link acc n b k P → ltb 0 n ≡ false → decode_tail none b k ≡ ok P
unfolding decode_tail value
empty_tail {b = b} [] link none_left = let e : b ≡ 0 = omega (arith, link.split) in rw e
empty_tail (p ∷ P) link none_left = absurd (ground (arith, link.bits, link.few_k))

one_tail :
    {acc n b k : ℕ} (P : List ℕ)
    → Link acc n b k P
    → ltb 0 n ≡ true
    → n ≤ 7
    → decode_tail (some acc) b k ≡ ok P
unfolding decode_tail value
one_tail [] link some_left few = absurd (ground (arith, link.bits))
one_tail {acc} {b = b} {k = k} (p ∷ []) link some_left few =
    let joined : bit_or b (shl32 acc k) ≡ p =
      or_shl32 k b acc link.b_fits (omega (arith, link.split, link.are_bytes))
      ∙ omega (arith, link.split) in
    let same : p % 256 ≡ p = omega (arith, link.are_bytes.0) in
    rw (joined, same) (ground (arith, link.are_bytes.0))
one_tail (p ∷ q ∷ P) link some_left few = absurd (omega (arith, link.bits, link.few_k))

pop_everything :
    (k : ℕ) (P : List ℕ) (d : DecodeStep) (Q : List ℕ)
    → Popped k 0 P d Q
    → length Q ≡ 0
    → feed d [] ≡ ok P
unfolding feed decode_loop value
pop_everything k P d [] popped none_left =
    let e : d.b ≡ 0 = omega (arith, popped.split) in rw e (ap ok popped.joined)
pop_everything k P d (q ∷ Q) popped none_left = absurd (omega arith)

pair_tail :
    {acc n b k : ℕ} (P : List ℕ) (w : ℕ)
    → Link acc n b k P
    → 7 ≤ n
    → (w ≡ 13) ⊎ (w ≡ 14)
    → (if ltb 88 (acc % 2 ^ 13) then 13 else 14) ≡ w
    → feed (decode_pair (acc % 91) (acc / 91) b k) [] ≡ ok P
pair_tail {acc} {n} {b} {k} P w link enough width same =
    let fits : acc < 2 ^ w = le_trans link.acc_fits (pow_le n w (omega (arith, link.few_n))) in
    let split : b + (acc + 0 * 2 ^ w) * 2 ^ k ≡ value P = omega (arith, link.split) in
    let room : k + w ≤ 8 * length P + 7 = omega (arith, link.bits) in
    let (Q, popped) =
      decode_pair_lem acc w b k 0 P width same link.are_bytes fits link.b_fits link.few_k split
        room in
    let sizes : length (decode_pair (acc % 91) (acc / 91) b k).pushed + length Q ≡ length P =
      sym (length-append _ Q) ∙ ap length popped.joined in
    pop_everything (k + w) P (decode_pair (acc % 91) (acc / 91) b k) Q popped
      (omega (arith, popped.bits, popped.few, link.bits, link.few_n))

-- A second character is written only where seven bits or more are left.
seven_left : (acc n : ℕ) → acc < 2 ^ n → (ltb 7 n || ltb 90 acc) ≡ true → 7 ≤ n
seven_left acc n fits two = elim (Bool-cases (leb 7 n)) [
  | inl many ↦ leb→le 7 n many
  | inr few ↦
      let small : acc < 2 ^ 6 = le_trans fits (pow_le n 6 (ground arith)) in absurd (ground arith)
]

two_tail :
    {acc n b k : ℕ} (P : List ℕ)
    → Link acc n b k P
    → 7 ≤ n
    → feed (decode_pair (acc % 91) (acc / 91) b k) [] ≡ ok P
two_tail {acc} P link h = elim (Bool-cases (ltb 88 (acc % 2 ^ 13))) [
  | inl high ↦ pair_tail P 13 link h (inl refl) (rw high)
  | inr low ↦ pair_tail P 14 link h (inr refl) (rw low)
]

-- The last characters, whichever of the three forms they have.
encode_tail_lem :
    {acc n b k : ℕ} (P : List ℕ)
    → Link acc n b k P
    → decode_loop none b k (encode_tail acc n) ≡ ok P
unfolding encode_tail
encode_tail_lem {acc} {n} {b} {k} P link = elim (Bool-cases (ltb 0 n)) [
  | inl some_left ↦ elim (Bool-cases (ltb 7 n || ltb 90 acc)) [
    | inl two ↦
        let small : acc < 2 ^ 13 = le_trans link.acc_fits (pow_le n 13 link.few_n) in
        rw (some_left, two)
          (decode_push_pair acc b k [] (omega arith)
            ∙ two_tail P link (seven_left acc n link.acc_fits two))
    | inr one ↦
        let low : acc < 91 = ground arith in
        let same : acc % 91 ≡ acc = omega arith in
        rw (some_left, one)
          (decode_one (acc % 91) b k [] (omega arith)
            ∙ rw same (unfold decode_loop in one_tail P link some_left (ground arith)))
  ]
  | inr none_left ↦ rw none_left (unfold decode_loop in empty_tail P link none_left)
]

feed_ok :
    (d : DecodeStep) (rest : List ℕ) {r : List ℕ}
    → decode_loop none d.b d.num_bits rest ≡ ok r
    → feed d rest ≡ ok (d.pushed ++ r)
unfolding feed
feed_ok d rest e = rw e

-- From linked states the decoder gives back the bytes on the way and the rest of the input.
encode_loop-Link :
    (xs : List ℕ) {acc n b k : ℕ} (P : List ℕ)
    → Link acc n b k P
    → AreBytes xs
    → decode_loop none b k (encode_loop acc n xs) ≡ ok (P ++ xs)
unfolding encode_loop
encode_loop-Link [] P link bytes = rw append-nil (encode_tail_lem P link)
encode_loop-Link (x ∷ xs) {acc} {n} {b} {k} P link bytes =
    let (d, Q, follows) = encode_step-Link link x bytes.0 in
    let s = encode_step acc n x in
    let rest : decode_loop none d.b d.num_bits (encode_loop s.acc s.num_bits xs) ≡ ok (Q ++ xs) =
      encode_loop-Link xs Q follows.link bytes.1 in
    let joined : d.pushed ++ (Q ++ xs) ≡ P ++ x ∷ xs =
      sym (append_assoc d.pushed Q xs)
      ∙ ap (λ (l : List ℕ). l ++ xs) follows.joined
      ∙ append_assoc P (x ∷ []) xs in
    follows.reads (encode_loop s.acc s.num_bits xs) ∙ feed_ok d _ rest ∙ ap ok joined

-- Decoding what `encode` wrote gives back the input, for every byte string: no error, no byte
-- lost, none added.
pub decode-encode : (src : List ℕ) → AreBytes src → decode (encode src) ≡ ok src
unfolding decode encode value
decode-encode src bytes = encode_loop-Link src [] start bytes
  where
    start : Link 0 0 0 0 []
    start = record {
      split = refl;
      bits = refl;
      acc_fits = omega arith;
      b_fits = omega arith;
      few_n = omega arith;
      few_k = omega arith;
      are_bytes = tt;
    }
