-- ===== src/Encryption/PathCipher/Tests.antt =====
-- Runs of src/encryption/path.rs, and its theorems, over a cipher that shifts each byte by the
-- length of the tweak.
use hf_mount_encrypted.Base.{
  ℕ, suc, ◌+◌, ◌-◌, ◌%◌, ◌≤◌, ◌≡◌, ◌⊎◌, refl, ap, ap₂, none, some, List, [], ◌∷◌, ◌++◌, true, arith,
  length, AreBytes, leb, if◌then◌else◌, All,
}
use hf_mount_encrypted.Base.Results.{ok, err}
use hf_mount_encrypted.Base.Text.{bytes, split, join}
use hf_mount_encrypted.Base.Utf8.{is_utf8}
use hf_mount_encrypted.Base91.{encode, decode, encoded_len_upper_bound}
use hf_mount_encrypted.Encryption.PathCipher.{
  pad_block, min_zero_pad, Hctr2, IsLawful, failed, invalid_name, validate_name, check_name_len,
  encrypt_input_len, encrypt_component, encrypt_components, encrypt_path, decrypt_path,
  decrypt_component, decrypt_components, open_plaintext, PathError, push_component, fold_or,
  strip_leading_nuls, contains, encoded_fits,
}
use hf_mount_encrypted.Encryption.PathCipher.Padding.{encrypt_input_len_bounds, IsName}
use hf_mount_encrypted.Encryption.PathCipher.Component.{check_name_len-encrypt_component}
use hf_mount_encrypted.Encryption.PathCipher.RoundTrip.{
  IsFileName, decrypt_path-encrypt_path, encrypt_path-components, encrypt_path_total,
}
use hf_mount_encrypted.Encryption.PathCipher.Structure.{decrypt_path-structure}

shift_up : ℕ → List ℕ → List ℕ
shift_up n [] = []
shift_up n (b ∷ bs) = (b + n) % 256 ∷ shift_up n bs

shift_down : ℕ → List ℕ → List ℕ
shift_down n [] = []
shift_down n (b ∷ bs) = (b + (256 - n % 256)) % 256 ∷ shift_down n bs

abbrev shifting : Hctr2
shifting = record {
  min_input_length = 16;
  encrypt = λ m t. if leb 16 (length m) then some (shift_up (length t) m) else none;
  decrypt = λ c t. if leb 16 (length c) then some (shift_down (length t) c) else none;
}

length-shift_up : (n : ℕ) (m : List ℕ) → length (shift_up n m) ≡ length m
unfolding shift_up
length-shift_up n [] = refl
length-shift_up n (b ∷ bs) = ap suc (length-shift_up n bs)

shift_up-bytes : (n : ℕ) (m : List ℕ) → AreBytes (shift_up n m)
unfolding shift_up
shift_up-bytes n [] = tt
shift_up-bytes n (b ∷ bs) = (omega arith, shift_up-bytes n bs)

shift_down-shift_up : (n : ℕ) (m : List ℕ) → AreBytes m → shift_down n (shift_up n m) ≡ m
unfolding shift_up shift_down
shift_down-shift_up n [] h = refl
shift_down-shift_up n (b ∷ bs) h = ap₂ ◌∷◌ (omega arith) (shift_down-shift_up n bs h.1)

shifted :
    (m t c : List ℕ) → shifting.encrypt m t ≡ some c → (16 ≤ length m) × (shift_up (length t) m ≡ c)
shifted m t c e = (ground arith, ground arith)

shifting-IsLawful : IsLawful shifting
shifting-IsLawful = record {
  short_minimum = omega arith;
  accepts = λ m t bs long. (shift_up (length t) m, ground arith);
  keeps_length = λ m t c bs e. rw (← (shifted m t c e).1) (length-shift_up (length t) m);
  keeps_bytes = λ m t c bs e. rw (← (shifted m t c e).1) (shift_up-bytes (length t) m);
  inverts = λ m t c bs e.
      let long : 16 ≤ length (shift_up (length t) m) =
        omega (arith, length-shift_up (length t) m, (shifted m t c e).0) in
      rw (← (shifted m t c e).1) (ground (arith, long, shift_down-shift_up (length t) m bs));
}

code : Unit {0}
unfolding is_utf8 encode decode split join encrypt_input_len encoded_len_upper_bound validate_name
    contains check_name_len encrypt_component encrypt_components encrypt_path decrypt_path
    decrypt_component decrypt_components open_plaintext push_component fold_or strip_leading_nuls
    encoded_fits shift_up shift_down
code = tt

abbrev two_levels : List ℕ
two_levels = bytes "runs/model.bin"

abbrev two_levels_stored : List ℕ
two_levels_stored =
    bytes "AAAAAAAAAAAAAAAAAAAAAAAAAAAAAAAAe8U=c/bLi"
    ++ 34 ∷ bytes "lBbLi"
    ++ 34 ∷ bytes "lBbLi"
    ++ 34 ∷ bytes "lBbLi"
    ++ 34 ∷ bytes "lBbL>WR[_0*T&1cbO"

two_levels_run : encrypt_path shifting two_levels ≡ ok two_levels_stored
unfolding code
two_levels_run = refl

slash_first : encrypt_path shifting (bytes "/etc") ≡ err (failed invalid_name)
unfolding code
slash_first = refl

two_levels_text : is_utf8 two_levels ≡ true
unfolding code
two_levels_text = refl

encrypt_input_len_bounds_example :
    (pad_block ≤ 64) × (30 + min_zero_pad ≤ 64) × (encoded_len_upper_bound 64 ≤ 255)
unfolding code
encrypt_input_len_bounds_example = encrypt_input_len_bounds 30 refl

check_name_len-encrypt_component_example :
    ((check_name_len (bytes "a") ≡ ok tt)
      × ((s : List ℕ) × (encrypt_component shifting (bytes "a") (bytes "runs") ≡ ok s)))
    ⊎ ((e : PathError) × (check_name_len (bytes "a") ≡ err e)
        × (encrypt_component shifting (bytes "a") (bytes "runs") ≡ err (failed e)))
check_name_len-encrypt_component_example =
    check_name_len-encrypt_component shifting shifting-IsLawful (bytes "a") (bytes "runs")
      (omega arith)

decrypt_path-encrypt_path_example : decrypt_path shifting two_levels_stored ≡ some two_levels
decrypt_path-encrypt_path_example =
    decrypt_path-encrypt_path shifting shifting-IsLawful two_levels two_levels_stored
      two_levels_text two_levels_run

encrypt_path-components_example :
    All IsFileName (split two_levels_stored)
    × (length (split two_levels_stored) ≡ length (split two_levels))
encrypt_path-components_example =
    encrypt_path-components shifting shifting-IsLawful two_levels two_levels_stored two_levels_text
      (λ e. cc) two_levels_run

encrypt_path_total_example : (s : List ℕ) × (encrypt_path shifting two_levels ≡ ok s)
unfolding code
encrypt_path_total_example =
    encrypt_path_total shifting shifting-IsLawful two_levels (omega arith) (refl, (refl, tt))

decrypt_path-structure_example :
    All IsName (split two_levels) × (length (split two_levels) ≡ length (split two_levels_stored))
decrypt_path-structure_example =
    decrypt_path-structure shifting two_levels_stored two_levels (λ e. cc)
      decrypt_path-encrypt_path_example
