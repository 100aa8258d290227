-- ===== src/Encryption/PathCipher/Padding.antt =====
-- src/encryption/path.rs: the padded length, and stripping the padding again.
use hf_mount_encrypted.Base.{
  ℕ, zero, suc, ◌+◌, ◌-◌, ◌≤◌, ◌<◌, ◌≡◌, ◌≢◌, refl, ◌↔◌, ◌⊎◌, ◌||◌, inl, inr, false, none, some,
  List, [], ◌∷◌, ◌++◌, arith, length, length-append, take, replicate, length-replicate, All,
  All-append, AreBytes, ◌==◌, Bool-cases,
}
use hf_mount_encrypted.Base.Results.{ok, err}
use hf_mount_encrypted.Base.Text.{slash, IsPiece}
use hf_mount_encrypted.Base91.{encoded_len_upper_bound}
use hf_mount_encrypted.Encryption.PathCipher.{
  pad_block, min_zero_pad, name_max, contains, is_empty, validate_name, encrypt_input_len,
  strip_leading_nuls, padded_name, fold_or, invalid_name,
}

-- The longest name that can be stored has 194 bytes; every shorter one can be stored too.
pub encrypt_input_len_limit : (n : ℕ) → (encrypt_input_len n ≡ none) ↔ (194 < n)
unfolding encrypt_input_len encoded_len_upper_bound
encrypt_input_len_limit n = (λ h. ground arith, λ h. ground arith)

-- A padded length is at least a pad block, has room for the name and the twelve zeros, and fits
-- the limit once encoded.
pub encrypt_input_len_bounds :
    (n : ℕ) {m : ℕ}
    → encrypt_input_len n ≡ some m
    → (pad_block ≤ m) × (n + min_zero_pad ≤ m) × (encoded_len_upper_bound m ≤ name_max)
unfolding encrypt_input_len encoded_len_upper_bound
encrypt_input_len_bounds n h = ground arith

-- A name has a byte, and neither a NUL nor a slash in it.
pub record IsName (name : List ℕ) : Type 0 where
  pub nonempty : name ≢ []
  pub no_nul : All (λ c. c ≢ 0) name
  pub piece : IsPiece name

absent_of_test : (x : ℕ) (ys : List ℕ) → contains x ys ≡ false → All (λ c. c ≢ x) ys
unfolding contains
absent_of_test x [] h = tt
absent_of_test x (y ∷ ys) h = (ground arith, absent_of_test x ys (ground arith))

test_of_absent : (x : ℕ) (ys : List ℕ) → All (λ c. c ≢ x) ys → contains x ys ≡ false
unfolding contains
test_of_absent x [] h = refl
test_of_absent x (y ∷ ys) h = ground (arith, test_of_absent x ys h.1, h.0)

pub validate_name-ok : (name : List ℕ) → validate_name name ≡ ok tt → IsName name
unfolding validate_name
validate_name-ok [] h = cc
validate_name-ok (x ∷ xs) h = record {
  nonempty = λ e. cc;
  no_nul = absent_of_test 0 (x ∷ xs) (ground arith);
  piece = absent_of_test slash (x ∷ xs) (ground arith);
}

pub ok-validate_name : (name : List ℕ) → IsName name → validate_name name ≡ ok tt
unfolding validate_name
ok-validate_name [] h = absurd (h.nonempty refl)
ok-validate_name (x ∷ xs) h =
    rw (test_of_absent 0 (x ∷ xs) h.no_nul, test_of_absent slash (x ∷ xs) h.piece)

-- `validate_name` has one error.
pub validate_name-cases :
    (name : List ℕ) → (validate_name name ≡ ok tt) ⊎ (validate_name name ≡ err invalid_name)
unfolding validate_name
validate_name-cases name =
    elim (Bool-cases (is_empty name || contains 0 name || contains slash name)) [
      | inl e ↦ inr (rw e)
      | inr e ↦ inl (rw e)
    ]

-- Stripping the zeros of a padded name gives back the name.
pub strip-padded :
    (k : ℕ) (name : List ℕ) → IsName name → strip_leading_nuls (replicate k 0 ++ name) ≡ name
unfolding strip_leading_nuls
strip-padded zero [] h = refl
strip-padded zero (x ∷ xs) h =
    let other : (x == 0) ≡ false = ground (arith, h.no_nul.0) in rw (other, strip_leading_nuls)
strip-padded (suc k) name h = strip-padded k name h

-- The first twelve bytes of a padded name are zero, and so is their disjunction.
pub fold_or-zeros :
    (n k : ℕ) (name : List ℕ) → n ≤ k → fold_or 0 (take n (replicate k 0 ++ name)) ≡ 0
unfolding fold_or
fold_or-zeros zero k name h = refl
fold_or-zeros (suc n) zero name h = absurd (omega arith)
fold_or-zeros (suc n) (suc k) name h = fold_or-zeros n k name (omega arith)

replicate-bytes : (k : ℕ) → AreBytes (replicate k 0)
replicate-bytes zero = tt
replicate-bytes (suc k) = (omega arith, replicate-bytes k)

pub padded_name-bytes : (m : ℕ) (name : List ℕ) → AreBytes name → AreBytes (padded_name m name)
padded_name-bytes m name h =
    All-append (λ c. c < 256) (replicate (m - length name) 0) name (replicate-bytes _) h

pub length-padded_name : (m : ℕ) (name : List ℕ) → length name ≤ m → length (padded_name m name) ≡ m
length-padded_name m name h = omega (
  arith,
  length-append (replicate (m - length name) 0) name,
  length-replicate (m - length name) (let z : ℕ = 0 in z),
)
