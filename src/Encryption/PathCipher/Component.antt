-- ===== src/Encryption/PathCipher/Component.antt =====
-- src/encryption/path.rs: one component, encrypted and decrypted.
use hf_mount_encrypted.Base.{
  ℕ, ◌≤◌, ◌≡◌, ◌≢◌, sym, ap, ◌∙◌, inl, inr, true, false, none, some, List, [], ◌∷◌, ◌++◌, ◌-◌, ◌⊎◌,
  replicate, arith, length, take, All, AreBytes, ltb, Option-cases,
}
use hf_mount_encrypted.Base.Results.{ok, err}
use hf_mount_encrypted.Base.Utf8.{is_utf8}
use hf_mount_encrypted.Base91.{encode, decode, encoded_len_upper_bound}
use hf_mount_encrypted.Base91.RoundTrip.{decode-encode}
use hf_mount_encrypted.Base91.Bounds.{IsFileNameByte, encode-IsFileName, length-encode-le}
use hf_mount_encrypted.Encryption.PathCipher.{
  pad_block, min_zero_pad, name_max, Hctr2, IsLawful, failed, panicked, invalid_name, name_too_long,
  validate_name, encrypt_input_len, padded_name, check_name_len, encrypt_component, open_plaintext,
  decrypt_component, strip_leading_nuls, fold_or, PathError,
}
use hf_mount_encrypted.Encryption.PathCipher.Padding.{
  encrypt_input_len_bounds, IsName, validate_name-ok, ok-validate_name, validate_name-cases,
  strip-padded, fold_or-zeros, padded_name-bytes, length-padded_name,
}

-- How a stored component comes about.
pub record Stored (h : Hctr2) (name parent stored : List ℕ) : Type 0 where
  pub input_len : ℕ
  pub ciphertext : List ℕ
  pub valid : IsName name
  pub sized : encrypt_input_len (length name) ≡ some input_len
  pub encrypted : h.encrypt (padded_name input_len name) parent ≡ some ciphertext
  pub written : stored ≡ encode ciphertext

decoded_nonempty : (c : List ℕ) → ok c ≡ decode [] → ¬ (pad_block ≤ length c)
unfolding decode
decoded_nonempty [] e long = absurd (omega arith)
decoded_nonempty (x ∷ xs) e long = cc

module _ (h : Hctr2) where
  encrypt_component_lem :
      (name parent : List ℕ) {m : ℕ} {c : List ℕ}
      → validate_name name ≡ ok tt
      → encrypt_input_len (length name) ≡ some m
      → h.encrypt (padded_name m name) parent ≡ some c
      → encrypt_component h name parent ≡ ok (encode c)
  unfolding encrypt_component
  encrypt_component_lem name parent valid sized encrypted = rw (valid, sized, encrypted)

  too_long :
      (name parent : List ℕ)
      → validate_name name ≡ ok tt
      → encrypt_input_len (length name) ≡ none
      → encrypt_component h name parent ≡ err (failed name_too_long)
  unfolding encrypt_component
  too_long name parent valid long = rw (valid, long)

  refused :
      (name parent : List ℕ) {m : ℕ}
      → validate_name name ≡ ok tt
      → encrypt_input_len (length name) ≡ some m
      → h.encrypt (padded_name m name) parent ≡ none
      → encrypt_component h name parent ≡ err panicked
  unfolding encrypt_component
  refused name parent valid sized none_out = rw (valid, sized, none_out)

  invalid :
      (name parent : List ℕ)
      → validate_name name ≡ err invalid_name
      → encrypt_component h name parent ≡ err (failed invalid_name)
  unfolding encrypt_component
  invalid name parent bad = rw bad

  pub encrypt_component-Stored :
      (name parent : List ℕ) {stored : List ℕ}
      → encrypt_component h name parent ≡ ok stored
      → Stored h name parent stored
  encrypt_component-Stored name parent e = elim (validate_name-cases name) [
    | inr bad ↦ cc (invalid name parent bad)
    | inl valid ↦ elim (Option-cases (encrypt_input_len (length name))) [
      | inl long ↦ cc (too_long name parent valid long)
      | inr (m, sized) ↦ elim (Option-cases (h.encrypt (padded_name m name) parent)) [
        | inl stopped ↦ cc (refused name parent valid sized stopped)
        | inr (c, encrypted) ↦ record {
          input_len = m;
          ciphertext = c;
          valid = validate_name-ok name valid;
          sized = sized;
          encrypted = encrypted;
          written = cc (encrypt_component_lem name parent valid sized encrypted);
        }
      ]
    ]
  ]

  module _ (law : IsLawful h) where
    padded_length :
        (name : List ℕ) {m : ℕ}
        → encrypt_input_len (length name) ≡ some m
        → length (padded_name m name) ≡ m
    padded_length name {m} sized =
        length-padded_name m name (omega (arith, encrypt_input_len_bounds (length name) sized))

    -- `check_name_len` foretells `encrypt_component`: a name that it accepts is encrypted, without
    -- a panic, and one that it refuses is refused with the same error.
    pub check_name_len-encrypt_component :
        (name parent : List ℕ)
        → AreBytes name
        → ((check_name_len name ≡ ok tt)
            × ((s : List ℕ) × (encrypt_component h name parent ≡ ok s)))
          ⊎ ((e : PathError) × (check_name_len name ≡ err e)
              × (encrypt_component h name parent ≡ err (failed e)))
    unfolding check_name_len
    check_name_len-encrypt_component name parent bs = elim (validate_name-cases name) [
      | inr bad ↦ inr (invalid_name, rw bad, invalid name parent bad)
      | inl valid ↦ elim (Option-cases (encrypt_input_len (length name))) [
        | inl long ↦ inr (name_too_long, rw (valid, long), too_long name parent valid long)
        | inr (m, sized) ↦
            let (c, encrypted) =
              law.accepts (padded_name m name) parent (padded_name-bytes m name bs) (
                omega (
                  arith,
                  law.short_minimum,
                  padded_length name sized,
                  encrypt_input_len_bounds (length name) sized,
                )) in
            inl (
              rw (valid, sized),
              (encode c, encrypt_component_lem name parent valid sized encrypted),
            )
      ]
    ]

    module _ {name parent stored : List ℕ} (w : Stored h name parent stored)
        (bs : AreBytes name) where
      padded_bytes : AreBytes (padded_name w.input_len name)
      padded_bytes = padded_name-bytes w.input_len name bs

      length-ciphertext : length w.ciphertext ≡ w.input_len
      length-ciphertext =
          law.keeps_length _ _ _ padded_bytes w.encrypted ∙ padded_length name w.sized

      decoded : decode stored ≡ ok w.ciphertext
      decoded =
          rw w.written (decode-encode w.ciphertext (law.keeps_bytes _ _ _ padded_bytes w.encrypted))

      ciphertext_long : pad_block ≤ length w.ciphertext
      ciphertext_long =
          omega (arith, length-ciphertext, encrypt_input_len_bounds (length name) w.sized)

      -- A stored component is a file name: not empty, at most 255 bytes, with no slash and no NUL.
      pub Stored-IsFileName : (stored ≢ []) × (length stored ≤ name_max) × All IsFileNameByte stored
      Stored-IsFileName =
          let bs' = law.keeps_bytes _ _ _ padded_bytes w.encrypted in
          (
            λ e. decoded_nonempty w.ciphertext (sym decoded ∙ ap decode e) ciphertext_long,
            rw w.written (
                omega (
                  arith,
                  length-encode-le w.ciphertext,
                  ap encoded_len_upper_bound length-ciphertext,
                  encrypt_input_len_bounds (length name) w.sized,
                )),
            rw w.written (encode-IsFileName w.ciphertext bs'),
          )

      opened : is_utf8 name ≡ true → open_plaintext (padded_name w.input_len name) ≡ some name
      unfolding open_plaintext
      opened text =
          let k = w.input_len - length name in
          let zeros : fold_or 0 (take min_zero_pad (replicate k 0 ++ name)) ≡ 0 =
            fold_or-zeros min_zero_pad k name
              (omega (arith, encrypt_input_len_bounds (length name) w.sized)) in
          let stripped : strip_leading_nuls (replicate k 0 ++ name) ≡ name =
            strip-padded k name w.valid in
          rw (zeros, stripped, text, ok-validate_name name w.valid) (ap some stripped)

      pub Stored-decrypt_component :
          is_utf8 name ≡ true → decrypt_component h stored parent ≡ some name
      unfolding decrypt_component
      Stored-decrypt_component text =
          let long : ltb (length w.ciphertext) pad_block ≡ false =
            ground (arith, ciphertext_long) in
          rw (decoded, long, law.inverts _ _ _ padded_bytes w.encrypted, decrypt_component)
            (opened text)
