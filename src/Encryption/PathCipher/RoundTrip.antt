-- ===== src/Encryption/PathCipher/RoundTrip.antt =====
-- src/encryption/path.rs: whole paths.
use hf_mount_encrypted.Base.{
  ℕ, suc, subst, ◌≤◌, ◌≡◌, ◌≢◌, refl, ap, ◌∙◌, inl, inr, true, false, some, List, [], ◌∷◌, arith,
  length, All, AreBytes,
}
use hf_mount_encrypted.Base.Results.{ok, >>=-ok}
use hf_mount_encrypted.Base.Text.{
  IsPiece, split, join, join-split, split-join, split_cons, split-bytes,
}
use hf_mount_encrypted.Base.Utf8.{is_utf8, split-is_utf8, is_utf8-bytes}
use hf_mount_encrypted.Base91.Bounds.{IsFileNameByte}
use hf_mount_encrypted.Encryption.PathCipher.{
  name_max, check_name_len, Hctr2, IsLawful, push_component, is_empty, encrypt_component,
  encrypt_components, decrypt_components, encrypt_path, decrypt_path,
}
use hf_mount_encrypted.Encryption.PathCipher.Component.{
  encrypt_component-Stored, Stored-IsFileName, Stored-decrypt_component,
  check_name_len-encrypt_component,
}

-- A file name: not empty, at most 255 bytes, no slash and no NUL.
abbrev pub IsFileName : List ℕ → Type 0
IsFileName s = (s ≢ []) × (length s ≤ name_max) × All IsFileNameByte s

without_slash : (s : List ℕ) → All IsFileNameByte s → IsPiece s
without_slash [] h = tt
without_slash (c ∷ s) h = (h.0.0, without_slash s h.1)

pieces : (ss : List (List ℕ)) → All IsFileName ss → All IsPiece ss
pieces [] hs = tt
pieces (s ∷ ss) hs = (without_slash s hs.0.2, pieces ss hs.1)

join_nonempty : (s : List ℕ) (ss : List (List ℕ)) → s ≢ [] → is_empty (join (s ∷ ss)) ≡ false
unfolding join
join_nonempty [] ss h = absurd (h refl)
join_nonempty (c ∷ s) [] h = refl
join_nonempty (c ∷ s) (t ∷ ss) h = refl

-- What the two loops do to the components under a parent.
record RoundTripped (h : Hctr2) (parent : List ℕ) (comps stored : List (List ℕ)) : Type 0 where
  back : decrypt_components h parent stored ≡ some comps
  names : All IsFileName stored
  as_many : length stored ≡ length comps

module _ (h : Hctr2) (law : IsLawful h) where
  one_more :
      (parent comp s : List ℕ) (comps rest : List (List ℕ))
      → is_utf8 comp ≡ true
      → encrypt_component h comp parent ≡ ok s
      → RoundTripped h (push_component parent comp) comps rest
      → RoundTripped h parent (comp ∷ comps) (s ∷ rest)
  unfolding decrypt_components
  one_more parent comp s comps rest text first t =
      let w = encrypt_component-Stored h comp parent first in
      let bs = is_utf8-bytes comp text in
      record {
        back = rw (Stored-decrypt_component h law w bs text, t.back, decrypt_components);
        names = (Stored-IsFileName h law w bs, t.names);
        as_many = ap suc t.as_many;
      }

  components_round_trip :
      (comps : List (List ℕ)) (parent : List ℕ) (stored : List (List ℕ))
      → All (λ p. is_utf8 p ≡ true) comps
      → encrypt_components h parent comps ≡ ok stored
      → RoundTripped h parent comps stored
  unfolding encrypt_components decrypt_components
  components_round_trip [] parent [] texts e = record { back = refl; names = tt; as_many = refl }
  components_round_trip [] parent (s ∷ ss) texts e = cc
  components_round_trip (comp ∷ comps) parent stored texts e =
      let (s, first, more) = >>=-ok (encrypt_component h comp parent) _ e in
      let (rest, others, all) =
        >>=-ok (encrypt_components h (push_component parent comp) comps) _ more in
      let is : s ∷ rest ≡ stored = cc in
      subst (RoundTripped h parent (comp ∷ comps)) is (
        one_more parent comp s comps rest texts.0 first
          (components_round_trip comps (push_component parent comp) rest texts.1 others))

  -- The two branches of `encrypt_path`.
  unpack :
      (path stored : List ℕ)
      → is_utf8 path ≡ true
      → encrypt_path h path ≡ ok stored
      → (path ≢ [])
      → (ss : List (List ℕ)) × (stored ≡ join ss) × RoundTripped h [] (split path) ss
  unfolding encrypt_path
  unpack [] stored text e some_left = absurd (some_left refl)
  unpack (c ∷ cs) stored text e some_left =
      let (ss, loop, all) = >>=-ok (encrypt_components h [] (split (c ∷ cs))) _ e in
      (ss, cc, components_round_trip (split (c ∷ cs)) [] ss (split-is_utf8 (c ∷ cs) text) loop)

  -- Paths with at least one byte, as their stored form.
  joined :
      (path : List ℕ) (ss : List (List ℕ))
      → RoundTripped h [] (split path) ss
      → (decrypt_path h (join ss) ≡ some path)
        × All IsFileName (split (join ss))
        × (length (split (join ss)) ≡ length (split path))
  unfolding decrypt_path
  joined path [] t =
      let (p, ps, e) = split_cons path in
      let size : 0 ≡ suc (length ps) = t.as_many ∙ ap length e in absurd (omega arith)
  joined path (s ∷ ss) t =
      let again : split (join (s ∷ ss)) ≡ s ∷ ss =
        split-join s ss (without_slash s t.names.0.2) (pieces ss t.names.1) in
      let some_left : is_empty (join (s ∷ ss)) ≡ false = join_nonempty s ss t.names.0.0 in
      (
        rw (some_left, again, t.back, decrypt_path) (ap some (join-split path)),
        rw again t.names,
        rw again t.as_many,
      )

  root_path : (stored : List ℕ) → encrypt_path h [] ≡ ok stored → decrypt_path h stored ≡ some []
  unfolding encrypt_path decrypt_path
  root_path [] e = refl
  root_path (c ∷ cs) e = cc

  -- Decrypting an encrypted path gives back the path, for every text that `encrypt_path` accepts.
  pub decrypt_path-encrypt_path :
      (path stored : List ℕ)
      → is_utf8 path ≡ true
      → encrypt_path h path ≡ ok stored
      → decrypt_path h stored ≡ some path
  decrypt_path-encrypt_path [] stored text e = root_path stored e
  decrypt_path-encrypt_path (c ∷ cs) stored text e =
      let (ss, is, t) = unpack (c ∷ cs) stored text e (λ no. cc) in rw is ((joined (c ∷ cs) ss t).0)

  -- The stored form of a path has as many components as the path, and each is a file name: not
  -- empty, at most 255 bytes, without a slash or a NUL.
  pub encrypt_path-components :
      (path stored : List ℕ)
      → is_utf8 path ≡ true
      → path ≢ []
      → encrypt_path h path ≡ ok stored
      → All IsFileName (split stored) × (length (split stored) ≡ length (split path))
  encrypt_path-components path stored text some_left e =
      let (ss, is, t) = unpack path stored text e some_left in
      rw is ((joined path ss t).1, (joined path ss t).2)

  components_total :
      (comps : List (List ℕ)) (parent : List ℕ)
      → All AreBytes comps
      → All (λ c. check_name_len c ≡ ok tt) comps
      → (ss : List (List ℕ)) × (encrypt_components h parent comps ≡ ok ss)
  unfolding encrypt_components
  components_total [] parent bs accepted = ([], refl)
  components_total (comp ∷ comps) parent bs accepted =
      elim (check_name_len-encrypt_component h law comp parent bs.0) [
        | inl (accepts, (s, first)) ↦
            let (ss, rest) = components_total comps (push_component parent comp) bs.1 accepted.1 in
            (s ∷ ss, rw (first, rest))
        | inr (e, refuses, stops) ↦ cc (accepted.0)
      ]

  -- A path whose components all pass `check_name_len` is encrypted: no error and no panic.
  pub encrypt_path_total :
      (path : List ℕ)
      → AreBytes path
      → All (λ c. check_name_len c ≡ ok tt) (split path)
      → (stored : List ℕ) × (encrypt_path h path ≡ ok stored)
  unfolding encrypt_path
  encrypt_path_total [] bs accepted = ([], refl)
  encrypt_path_total (c ∷ cs) bs accepted =
      let (ss, e) = components_total (split (c ∷ cs)) [] (split-bytes (c ∷ cs) bs) accepted in
      (join ss, rw e)
