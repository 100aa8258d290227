-- ===== src/Encryption/PathCipher.antt =====
-- src/encryption/path.rs: each component of a path is padded with zeros, encrypted under the path
-- above it and written in basE91. A `&str` is the list of its bytes.
pub mod Padding
pub mod Component
pub mod RoundTrip
pub mod Structure
mod Tests
use hf_mount_encrypted.Base.{
  ℕ, zero, suc, ◌+◌, ◌-◌, ◌*◌, ◌/◌, ◌≤◌, ◌≡◌, Bool, true, false, ◌||◌, Option, none, some, List, [],
  ◌∷◌, ◌++◌, length, take, replicate, AreBytes, bit_or, ltb, leb, ◌==◌, if◌then◌else◌,
}
use hf_mount_encrypted.Base.Results.{Result, ok, err, ◌>>=◌, ◌>>◌, ok_or}
use hf_mount_encrypted.Base.Text.{slash, split, join}
use hf_mount_encrypted.Base.Utf8.{is_utf8}
use hf_mount_encrypted.Base91

abbrev pub pad_block : ℕ
pad_block = 32

abbrev pub min_zero_pad : ℕ
min_zero_pad = 12

abbrev pub name_max : ℕ
name_max = 255

pub data PathError : Type 0 where
  invalid_name name_too_long : PathError

-- How a call of this module fails: by a `PathError`, or by the panic of an `expect`.
pub data Failure : Type 0 where
  failed : PathError → Failure
  panicked : Failure

-- HCTR2-AES-128 of the crate `hctr2-rs` under one key: the two calls, which take the message and
-- the tweak and refuse (`none`) a message shorter than `Hctr2_128::MIN_INPUT_LENGTH`.
pub record Hctr2 : Type 0 where
  pub min_input_length : ℕ
  pub encrypt : List ℕ → List ℕ → Option (List ℕ)
  pub decrypt : List ℕ → List ℕ → Option (List ℕ)

-- What the crate documents: the cipher accepts every byte string that is long enough, preserves
-- the length, and `decrypt` under the same tweak inverts `encrypt`. The source asserts at compile
-- time that a pad block is long enough.
pub record IsLawful (h : Hctr2) : Type 0 where
  pub short_minimum : h.min_input_length ≤ pad_block
  pub accepts :
      (m tweak : List ℕ)
      → AreBytes m
      → h.min_input_length ≤ length m
      → (c : List ℕ) × (h.encrypt m tweak ≡ some c)
  pub keeps_length :
      (m tweak c : List ℕ) → AreBytes m → h.encrypt m tweak ≡ some c → length c ≡ length m
  pub keeps_bytes : (m tweak c : List ℕ) → AreBytes m → h.encrypt m tweak ≡ some c → AreBytes c
  pub inverts :
      (m tweak c : List ℕ) → AreBytes m → h.encrypt m tweak ≡ some c → h.decrypt c tweak ≡ some m

-- `bytes.contains(&x)`
unfoldable pub contains : ℕ → List ℕ → Bool
contains x [] = false
contains x (y ∷ ys) = y == x || contains x ys

abbrev pub is_empty : List ℕ → Bool
is_empty [] = true
is_empty (_ ∷ _) = false

unfoldable pub validate_name : List ℕ → Result PathError (Unit {0})
unfolding contains
validate_name name =
    if is_empty name || contains 0 name || contains slash name then err invalid_name else ok tt

unfoldable pub encoded_fits : ℕ → Bool
encoded_fits input_len = leb (Base91.encoded_len_upper_bound input_len) name_max

-- `n.div_ceil(m)`
abbrev pub div_ceil : ℕ → ℕ → ℕ
div_ceil n m = (n + m - 1) / m

unfoldable pub encrypt_input_len : ℕ → Option ℕ
unfolding encoded_fits
encrypt_input_len name_len =
    let min_len = name_len + min_zero_pad in
    let padded = div_ceil min_len pad_block * pad_block in
    if encoded_fits padded then some padded else if encoded_fits min_len then some min_len else none

unfoldable pub strip_leading_nuls : List ℕ → List ℕ
strip_leading_nuls [] = []
strip_leading_nuls (b ∷ bs) = elim (b == 0) [ true ↦ strip_leading_nuls bs | false ↦ b ∷ bs ]

unfoldable pub push_component : List ℕ → List ℕ → List ℕ
push_component parent comp = if is_empty parent then comp else parent ++ slash ∷ comp

unfoldable pub check_name_len : List ℕ → Result PathError (Unit {0})
check_name_len name = do
  validate_name name
  _ ← ok_or (encrypt_input_len (length name)) name_too_long
  ok tt

-- A `PathError` as a failure of the call.
abbrev pub lift : {A : Type 0} → Result PathError A → Result Failure A
lift (ok a) = ok a
lift (err e) = err (failed e)

-- The zero padding and the name behind it.
abbrev pub padded_name : ℕ → List ℕ → List ℕ
padded_name input_len name = replicate (input_len - length name) 0 ++ name

-- `pad.iter().fold(0u8, |acc, &b| acc | b)`
unfoldable pub fold_or : ℕ → List ℕ → ℕ
fold_or acc [] = acc
fold_or acc (b ∷ bs) = fold_or (bit_or acc b) bs

-- The checks of `decrypt_component` on a decrypted plaintext.
unfoldable pub open_plaintext : List ℕ → Option (List ℕ)
open_plaintext plaintext =
    let name = strip_leading_nuls plaintext in
    let valid : Option (List ℕ) = elim (validate_name name) [ ok _ ↦ some name | err _ ↦ none ] in
    if fold_or 0 (take min_zero_pad plaintext) == 0
    then (if is_utf8 name then valid else none)
    else none

module _ (h : Hctr2) where
  unfoldable pub encrypt_component : List ℕ → List ℕ → Result Failure (List ℕ)
  encrypt_component name parent = do
    lift (validate_name name)
    input_len ← lift (ok_or (encrypt_input_len (length name)) name_too_long)
    ciphertext ← ok_or (h.encrypt (padded_name input_len name) parent) panicked
    ok (Base91.encode ciphertext)

  unfoldable pub decrypt_component : List ℕ → List ℕ → Option (List ℕ)
  decrypt_component stored parent = elim (Base91.decode stored) [
    | err _ ↦ none
    | ok ciphertext ↦
        if ltb (length ciphertext) pad_block then none else elim (h.decrypt ciphertext parent) [
          | none ↦ none
          | some plaintext ↦ open_plaintext plaintext
        ]
  ]

  -- The loop of `encrypt_path`; `parent` is the plaintext path so far.
  unfoldable pub encrypt_components : List ℕ → List (List ℕ) → Result Failure (List (List ℕ))
  encrypt_components parent [] = ok []
  encrypt_components parent (comp ∷ comps) = do
    stored ← encrypt_component comp parent
    rest ← encrypt_components (push_component parent comp) comps
    ok (stored ∷ rest)

  unfoldable pub encrypt_path : List ℕ → Result Failure (List ℕ)
  encrypt_path plaintext_path =
      if is_empty plaintext_path
      then ok []
      else do encoded ← encrypt_components [] (split plaintext_path); ok (join encoded)

  -- The loop of `decrypt_path`.
  unfoldable pub decrypt_components : List ℕ → List (List ℕ) → Option (List (List ℕ))
  decrypt_components parent [] = some []
  decrypt_components parent (comp ∷ comps) = elim (decrypt_component comp parent) [
    | none ↦ none
    | some name ↦ elim (decrypt_components (push_component parent name) comps) [
      | none ↦ none
      | some plain ↦ some (name ∷ plain)
    ]
  ]

  unfoldable pub decrypt_path : List ℕ → Option (List ℕ)
  decrypt_path stored_path =
      if is_empty stored_path then some [] else elim (decrypt_components [] (split stored_path)) [
        | none ↦ none
        | some plain ↦ some (join plain)
      ]
