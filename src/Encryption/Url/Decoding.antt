-- ===== src/Encryption/Url/Decoding.antt =====
-- Percent decoding, and that it undoes `encode_path_segments`.
use hf_mount_encrypted.Base.{
  ℕ, zero, suc, ◌+◌, ◌-◌, ◌*◌, ◌/◌, ◌%◌, ◌<◌, ◌≡◌, refl, sym, ap, ◌∙◌, Bool, true, ◌||◌, List, [],
  ◌∷◌, ◌++◌, ◌==◌, leb, if◌then◌else◌, get_or, arith, append_assoc, append-nil, All, All-append,
  AreBytes, Bool-cases, inl, inr,
}
use hf_mount_encrypted.Base.Bits.{all_below, all_below_sound}
use hf_mount_encrypted.Base.Text.{slash, split, join, join-split, split-bytes, split_cons}
use hf_mount_encrypted.Encryption.Url.{
  hex_digits, is_unreserved, encode_byte, encode_segment, encode_from, encode_path_segments,
}

-- What a decoder has read of an escape.
pub data Escape : Type 0 where
  outside percent : Escape
  high : ℕ → Escape

-- The value of a digit.
abbrev pub hex_value : ℕ → ℕ
hex_value c = if leb b'A' c then c - 55 else c - 48

-- The decoding of RFC 3986.
unfoldable pub percent_decode : Escape → List ℕ → List ℕ
percent_decode state [] = []
percent_decode outside (c ∷ cs) =
    let here = c ∷ percent_decode outside cs in
    let escaped = percent_decode percent cs in if c == b'%' then escaped else here
percent_decode percent (c ∷ cs) = percent_decode (high (hex_value c)) cs
percent_decode (high h) (c ∷ cs) = (h * 16 + hex_value c) ∷ percent_decode outside cs

abbrev hex_at : ℕ → Bool
hex_at d = hex_value (get_or hex_digits d 0) == d

hex_value-hex_digits : (d : ℕ) → d < 16 → hex_value (get_or hex_digits d 0) ≡ d
hex_value-hex_digits d small =
    let checked : all_below 16 hex_at ≡ true = (unfold all_below in refl) in
    ground (arith, all_below_sound 16 hex_at d small checked)

percent_decode-encode_byte :
    (b : ℕ) (rest : List ℕ)
    → b < 256
    → percent_decode outside (encode_byte b ++ rest) ≡ b ∷ percent_decode outside rest
unfolding percent_decode encode_byte is_unreserved
percent_decode-encode_byte b rest small = elim (Bool-cases (is_unreserved b)) [
  | inl h ↦ rw h (ground (arith, h))
  | inr h ↦ rw h (
      ap (λ (x : ℕ). x ∷ percent_decode outside rest)
        (ground (
          arith,
          hex_value-hex_digits (b / 16) (omega (arith, small)),
          hex_value-hex_digits (b % 16) (omega (arith, small)),
        )))
]

percent_decode-encode_segment :
    (s rest : List ℕ)
    → AreBytes s
    → percent_decode outside (encode_segment s ++ rest) ≡ s ++ percent_decode outside rest
unfolding encode_segment
percent_decode-encode_segment [] rest small = refl
percent_decode-encode_segment (b ∷ s) rest small =
    ap (percent_decode outside) (append_assoc (encode_byte b) (encode_segment s) rest)
    ∙ percent_decode-encode_byte b (encode_segment s ++ rest) small.0
    ∙ ap (◌∷◌ b) (percent_decode-encode_segment s rest small.1)

percent_decode-encode_from :
    (s : List ℕ) (ss : List (List ℕ)) (i : ℕ)
    → All AreBytes (s ∷ ss)
    → percent_decode outside (encode_segment s ++ encode_from (suc i) ss) ≡ join (s ∷ ss)
unfolding encode_from join percent_decode
percent_decode-encode_from s [] i small = percent_decode-encode_segment s [] small.0 ∙ append-nil s
percent_decode-encode_from s (r ∷ ss) i small =
    percent_decode-encode_segment s (encode_from (suc i) (r ∷ ss)) small.0
    ∙ ap (λ (l : List ℕ). s ++ slash ∷ l) (percent_decode-encode_from r ss (suc i) small.1)

-- The usual percent decoding gives back every path of bytes.
pub percent_decode-encode_path_segments :
    (path : List ℕ) (are_bytes : AreBytes path)
    → percent_decode outside (encode_path_segments path) ≡ path
unfolding encode_path_segments encode_from
percent_decode-encode_path_segments path are_bytes =
    let (p, ps, e) = split_cons path in
    let small : All AreBytes (p ∷ ps) = rw e at (split-bytes path are_bytes) in
    rw e (percent_decode-encode_from p ps 0 small) ∙ ap join (sym e) ∙ join-split path

-- A byte that a path of a URL may hold as it is: an unreserved one, a slash, or the sign of an
-- escape.
abbrev pub IsUrlByte : ℕ → Type 0
IsUrlByte c = (is_unreserved c || c == b'%' || c == slash) ≡ true

abbrev unreserved_digit : ℕ → Bool
unreserved_digit d = is_unreserved (get_or hex_digits d 0)

unreserved-hex_digits : (d : ℕ) → d < 16 → IsUrlByte (get_or hex_digits d 0)
unreserved-hex_digits d small =
    let checked : all_below 16 unreserved_digit ≡ true =
      (unfold all_below in unfold is_unreserved in refl) in
    ground (arith, all_below_sound 16 unreserved_digit d small checked)

encode_byte-IsUrlByte : (b : ℕ) → b < 256 → All IsUrlByte (encode_byte b)
unfolding encode_byte
encode_byte-IsUrlByte b small = elim (Bool-cases (is_unreserved b)) [
  | inl h ↦ rw h (ground (arith, h), tt)
  | inr h ↦ rw h (
    ground arith,
    (
      unreserved-hex_digits (b / 16) (omega (arith, small)),
      (unreserved-hex_digits (b % 16) (omega (arith, small)), tt),
    ),
  )
]

encode_segment-IsUrlByte : (s : List ℕ) → AreBytes s → All IsUrlByte (encode_segment s)
unfolding encode_segment
encode_segment-IsUrlByte [] small = tt
encode_segment-IsUrlByte (b ∷ s) small =
    All-append IsUrlByte (encode_byte b) (encode_segment s) (encode_byte-IsUrlByte b small.0)
      (encode_segment-IsUrlByte s small.1)

encode_from-IsUrlByte :
    (i : ℕ) (ss : List (List ℕ)) → All AreBytes ss → All IsUrlByte (encode_from i ss)
unfolding encode_from
encode_from-IsUrlByte i [] small = tt
encode_from-IsUrlByte zero (s ∷ ss) small =
    All-append IsUrlByte (encode_segment s) (encode_from 1 ss) (encode_segment-IsUrlByte s small.0)
      (encode_from-IsUrlByte 1 ss small.1)
encode_from-IsUrlByte (suc i) (s ∷ ss) small = (
  ground arith,
  All-append IsUrlByte (encode_segment s) (encode_from (suc (suc i)) ss)
      (encode_segment-IsUrlByte s small.0) (encode_from-IsUrlByte (suc (suc i)) ss small.1),
)

-- An encoded path holds nothing but letters, digits, `-`, `.`, `_`, `~`, `%` and `/`, so that no
-- byte of a name reaches the query or the fragment of a URL.
pub encode_path_segments-IsUrlByte :
    (path : List ℕ) (are_bytes : AreBytes path) → All IsUrlByte (encode_path_segments path)
unfolding encode_path_segments
encode_path_segments-IsUrlByte path are_bytes =
    encode_from-IsUrlByte 0 (split path) (split-bytes path are_bytes)
