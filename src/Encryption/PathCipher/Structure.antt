-- ===== src/Encryption/PathCipher/Structure.antt =====
-- src/encryption/path.rs: what a remote entry can decrypt to, whatever the cipher returns.
use hf_mount_encrypted.Base.{
  ℕ, suc, ◌≡◌, ◌≢◌, refl, ap, ◌∙◌, inl, inr, some, List, [], ◌∷◌, arith, length, All, Option-cases,
  subst,
}
use hf_mount_encrypted.Base.Results.{Result-cases}
use hf_mount_encrypted.Base.Text.{IsPiece, split, join, split-join, split_cons}
use hf_mount_encrypted.Base91.{decode}
use hf_mount_encrypted.Encryption.PathCipher.{
  Hctr2, strip_leading_nuls, push_component, open_plaintext, decrypt_component, decrypt_components,
  decrypt_path,
}
use hf_mount_encrypted.Encryption.PathCipher.Padding.{IsName, validate_name-ok, validate_name-cases}

open_plaintext-IsName : (m : List ℕ) {name : List ℕ} → open_plaintext m ≡ some name → IsName name
unfolding open_plaintext
open_plaintext-IsName m {name} e = elim (validate_name-cases (strip_leading_nuls m)) [
  | inl valid ↦
      let is : strip_leading_nuls m ≡ name = ground arith in
      subst IsName is (validate_name-ok (strip_leading_nuls m) valid)
  | inr bad ↦ absurd (ground arith)
]

pieces : (names : List (List ℕ)) → All IsName names → All IsPiece names
pieces [] hs = tt
pieces (n ∷ ns) hs = (hs.0.piece, pieces ns hs.1)

split_names :
    (names : List (List ℕ)) (stored : List ℕ)
    → All IsName names
    → length names ≡ length (split stored)
    → All IsName (split (join names)) × (length (split (join names)) ≡ length (split stored))
split_names [] stored good size =
    let (p, ps, e) = split_cons stored in
    let none_left : 0 ≡ suc (length ps) = size ∙ ap length e in absurd (omega arith)
split_names (n ∷ ns) stored good size =
    rw (split-join n ns good.0.piece (pieces ns good.1)) (good, size)

module _ (h : Hctr2) where
  -- A component that decrypts is a name: not empty, without a NUL and without a slash.
  pub decrypt_component-IsName :
      (stored parent : List ℕ) {name : List ℕ}
      → decrypt_component h stored parent ≡ some name
      → IsName name
  unfolding decrypt_component
  decrypt_component-IsName stored parent e = elim (Result-cases (decode stored)) [
    | inr (bad, broken) ↦ cc (rw (broken, decrypt_component) at e)
    | inl (c, decoded) ↦ elim (Option-cases (h.decrypt c parent)) [
      | inl refused ↦ absurd (ground arith)
      | inr (m, decrypted) ↦ open_plaintext-IsName m (ground arith)
    ]
  ]

  decrypt_components-names :
      (parent : List ℕ) (stored names : List (List ℕ))
      → decrypt_components h parent stored ≡ some names
      → All IsName names × (length names ≡ length stored)
  unfolding decrypt_components
  decrypt_components-names parent [] [] e = (tt, refl)
  decrypt_components-names parent [] (n ∷ ns) e = cc
  decrypt_components-names parent (s ∷ ss) names e =
      elim (Option-cases (decrypt_component h s parent)) [
        | inl no_name ↦ cc (rw (no_name, decrypt_components) at e)
        | inr (name, first) ↦
            elim (Option-cases (decrypt_components h (push_component parent name) ss)) [
              | inl no_rest ↦ cc (rw (first, no_rest, decrypt_components) at e)
              | inr (rest, others) ↦
                  let is : name ∷ rest ≡ names = ground arith in
                  let (ih, size) =
                    decrypt_components-names (push_component parent name) ss rest others in
                  subst (λ l. All IsName l × (length l ≡ suc (length ss))) is
                    ((decrypt_component-IsName s parent first, ih), ap suc size)
            ]
      ]

  -- A stored path that decrypts gives a path of as many components, each of which is a name: no
  -- remote entry can add, drop or empty a directory level.
  pub decrypt_path-structure :
      (stored path : List ℕ)
      → stored ≢ []
      → decrypt_path h stored ≡ some path
      → All IsName (split path) × (length (split path) ≡ length (split stored))
  unfolding decrypt_path
  decrypt_path-structure [] path some_left e = absurd (some_left refl)
  decrypt_path-structure (c ∷ cs) path some_left e =
      elim (Option-cases (decrypt_components h [] (split (c ∷ cs)))) [
        | inl no_names ↦ absurd (ground arith)
        | inr (names, all) ↦
            let is : join names ≡ path = ground arith in
            let (good, size) = decrypt_components-names [] (split (c ∷ cs)) names all in
            subst (λ p. All IsName (split p) × (length (split p) ≡ length (split (c ∷ cs)))) is
              (split_names names (c ∷ cs) good size)
      ]
