-- ===== src/Base/Text.antt =====
-- Rust texts as lists of bytes: `split('/')`, `join("/")` and `str::from_utf8`.
use Prim.Native.Nat.{ℕ}
use Prim.Native.String.{String}
use Prim.Native.Char.{code}
use mathlib.Core.Path.{◌≡◌, refl, sym, ap, ◌∙◌}
use mathlib.Core.Logic.{◌≢◌, inl, inr}
use mathlib.Core.Bool.{false}
use mathlib.Core.List.{List, [], ◌∷◌, ◌++◌}
use native.Mathlib.Omega.{arith}
use hf_mount_encrypted.Base.Tests.{◌==◌, if◌then◌else◌, Bool-cases}
use hf_mount_encrypted.Base.Lists.{All, AreBytes}

-- The bytes of an ASCII text.
abbrev pub bytes : String → List ℕ
bytes String.[] = []
bytes (String.◌∷◌ c s) = code c ∷ bytes s

-- `/`
abbrev pub slash : ℕ
slash = b'/'

-- Put a byte in front of the first piece.
abbrev pub cons_first : ℕ → List (List ℕ) → List (List ℕ)
cons_first c [] = (c ∷ []) ∷ []
cons_first c (p ∷ ps) = (c ∷ p) ∷ ps

-- `split('/')`, which has one piece more than there are slashes.
unfoldable pub split : List ℕ → List (List ℕ)
split [] = [] ∷ []
split (c ∷ cs) = let rest = split cs in if c == slash then [] ∷ rest else cons_first c rest

-- `join("/")`
unfoldable pub join : List (List ℕ) → List ℕ
join [] = []
join (p ∷ []) = p
join (p ∷ q ∷ ps) = p ++ slash ∷ join (q ∷ ps)

-- No slash in the piece.
abbrev pub IsPiece : List ℕ → Type 0
IsPiece = All (λ c. c ≢ slash)

-- `cons_first` never meets an empty list.
pub split_cons : (cs : List ℕ) → (p : List ℕ) × (ps : List (List ℕ)) × (split cs ≡ p ∷ ps)
unfolding split
split_cons [] = ([], [], refl)
split_cons (c ∷ cs) =
    let (p, ps, e) = split_cons cs in
    elim (Bool-cases (c == slash)) [ inl h ↦ ([], split cs, rw h) | inr h ↦ (c ∷ p, ps, rw (h, e)) ]

join-cons_first :
    (c : ℕ) (p : List ℕ) (ps : List (List ℕ)) → join ((c ∷ p) ∷ ps) ≡ c ∷ join (p ∷ ps)
unfolding join
join-cons_first c p [] = refl
join-cons_first c p (q ∷ ps) = refl

pub join-split : (cs : List ℕ) → join (split cs) ≡ cs
unfolding split join
join-split [] = refl
join-split (c ∷ cs) =
    let (p, ps, e) = split_cons cs in
    let ih : join (p ∷ ps) ≡ cs = ap join (sym e) ∙ join-split cs in
    elim (Bool-cases (c == slash)) [
      | inl h ↦ let is : c ≡ slash = ground arith in rw (h, e, is) (rw ih)
      | inr h ↦ rw (h, e) (join-cons_first c p ps ∙ rw ih)
    ]

split_piece : (p : List ℕ) → IsPiece p → split p ≡ p ∷ []
unfolding split
split_piece [] h = refl
split_piece (c ∷ p) h =
    let other : (c == slash) ≡ false = ground (arith, h.0) in rw (other, split_piece p h.1)

split_piece_slash : (p cs : List ℕ) → IsPiece p → split (p ++ slash ∷ cs) ≡ p ∷ split cs
unfolding split
split_piece_slash [] cs h = refl
split_piece_slash (c ∷ p) cs h =
    let other : (c == slash) ≡ false = ground (arith, h.0) in rw (other, split_piece_slash p cs h.1)

pub split-join :
    (p : List ℕ) (ps : List (List ℕ)) → IsPiece p → All IsPiece ps → split (join (p ∷ ps)) ≡ p ∷ ps
unfolding join
split-join p [] h hs = split_piece p h
split-join p (q ∷ ps) h hs =
    split_piece_slash p (join (q ∷ ps)) h ∙ ap (◌∷◌ p) (split-join q ps hs.0 hs.1)

pub split-pieces : (cs : List ℕ) → All IsPiece (split cs)
unfolding split
split-pieces [] = (tt, tt)
split-pieces (c ∷ cs) =
    let (p, ps, e) = split_cons cs in
    let ih : IsPiece p × All IsPiece ps = rw e at (split-pieces cs) in
    elim (Bool-cases (c == slash)) [
      | inl h ↦ rw h (tt, split-pieces cs)
      | inr h ↦ rw (h, e) ((ground arith, ih.0), ih.1)
    ]

pub split-bytes : (cs : List ℕ) → AreBytes cs → All AreBytes (split cs)
unfolding split
split-bytes [] h = (tt, tt)
split-bytes (c ∷ cs) h =
    let (p, ps, e) = split_cons cs in
    let ih : AreBytes p × All AreBytes ps = rw e at (split-bytes cs h.1) in
    elim (Bool-cases (c == slash)) [
      | inl is ↦ rw is (tt, split-bytes cs h.1)
      | inr other ↦ rw (other, e) ((h.0, ih.0), ih.1)
    ]
