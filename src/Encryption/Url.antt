-- ===== src/Encryption/Url.antt =====
-- src/encryption/url.rs: the percent encoding of the segments of a path.
pub mod Decoding
mod Tests
use hf_mount_encrypted.Base.{
  ℕ, zero, suc, ◌+◌, ◌/◌, ◌%◌, Bool, true, false, ◌&&◌, ◌||◌, List, [], ◌∷◌, ◌++◌, ◌==◌, ltb, leb,
  if◌then◌else◌, get_or,
}
use hf_mount_encrypted.Base.Text.{bytes, slash, split}

abbrev pub hex_digits : List ℕ
hex_digits = bytes "0123456789ABCDEF"

-- The bytes that `b.is_ascii_alphanumeric() || matches!(b, b'-' | b'.' | b'_' | b'~')` admits.
unfoldable pub is_unreserved : ℕ → Bool
is_unreserved b =
    leb b'0' b && leb b b'9'
    || leb b'A' b && leb b b'Z'
    || leb b'a' b && leb b b'z'
    || b == b'-'
    || b == b'.'
    || b == b'_'
    || b == b'~'

-- `b >> 4` and `b & 0x0f`; both are below 16 at a byte.
unfoldable pub encode_byte : ℕ → List ℕ
encode_byte b =
    if is_unreserved b
    then b ∷ []
    else b'%' ∷ get_or hex_digits (b / 16) 0 ∷ get_or hex_digits (b % 16) 0 ∷ []

unfoldable pub encode_segment : List ℕ → List ℕ
encode_segment [] = []
encode_segment (b ∷ bs) = encode_byte b ++ encode_segment bs

-- The loop over the segments, from the index `i` on.
unfoldable pub encode_from : ℕ → List (List ℕ) → List ℕ
encode_from i [] = []
encode_from zero (segment ∷ rest) = encode_segment segment ++ encode_from 1 rest
encode_from (suc i) (segment ∷ rest) =
    slash ∷ encode_segment segment ++ encode_from (suc (suc i)) rest

unfoldable pub encode_path_segments : List ℕ → List ℕ
encode_path_segments path = encode_from 0 (split path)
