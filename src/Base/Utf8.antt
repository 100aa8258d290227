-- ===== src/Base/Utf8.antt =====
-- `str::from_utf8`: the well-formed byte sequences of the Unicode standard.
use Prim.Native.Nat.{ℕ, ◌<◌}
use mathlib.Core.Path.{◌≡◌, refl}
use mathlib.Core.Logic.{inl, inr}
use mathlib.Core.Bool.{Bool, true, false, ◌&&◌}
use mathlib.Core.Option.{Option, none, some}
use mathlib.Core.List.{List, [], ◌∷◌, ◌++◌}
use native.Mathlib.Omega.{arith}
use hf_mount_encrypted.Base.Tests.{ltb, leb, ◌==◌, if◌then◌else◌, Option-cases}
use hf_mount_encrypted.Base.Lists.{All, AreBytes}
use hf_mount_encrypted.Base.Text.{slash, split, join, join-split, split_cons}

-- How many continuation bytes are due, and which values the next one may take.
pub data State : Type 0 where
  start one two two_e0 two_ed three three_f0 three_f4 : State

within : ℕ → ℕ → ℕ → State → Option State
within lo hi b next = if leb lo b && leb b hi then some next else none

lead : ℕ → Option State
lead b =
    if ltb b 0x80
    then some start
    else if ltb b 0xc2
    then none
    else if ltb b 0xe0
    then some one
    else if b == 0xe0
    then some two_e0
    else if b == 0xed
    then some two_ed
    else if ltb b 0xf0
    then some two
    else if b == 0xf0
    then some three_f0
    else if ltb b 0xf4
    then some three
    else if b == 0xf4
    then some three_f4
    else none

next : State → ℕ → Option State
unfolding within lead
next start b = lead b
next one b = within 0x80 0xbf b start
next two b = within 0x80 0xbf b one
next two_e0 b = within 0xa0 0xbf b one
next two_ed b = within 0x80 0x9f b one
next three b = within 0x80 0xbf b two
next three_f0 b = within 0x90 0xbf b two
next three_f4 b = within 0x80 0x8f b two

ends : State → Bool
ends start = true
ends _ = false

utf8_from : State → List ℕ → Bool
unfolding next ends
utf8_from s [] = ends s
utf8_from s (b ∷ bs) = elim (next s b) [ none ↦ false | some t ↦ utf8_from t bs ]

-- `str::from_utf8(bytes).is_ok()`
unfoldable pub is_utf8 : List ℕ → Bool
unfolding utf8_from
is_utf8 = utf8_from start

-- A slash stands between characters, never inside one.
utf8_from-slash :
    (s : State) (xs ys : List ℕ)
    → utf8_from s (xs ++ slash ∷ ys) ≡ (utf8_from s xs && utf8_from start ys)
unfolding utf8_from
utf8_from-slash start [] ys = refl
utf8_from-slash _ [] ys = refl
utf8_from-slash s (x ∷ xs) ys = elim (Option-cases (next s x)) [
  | inl e ↦ rw (e, utf8_from)
  | inr (t, e) ↦ rw (e, utf8_from) (utf8_from-slash t xs ys)
]

pub is_utf8-slash : (xs ys : List ℕ) → is_utf8 (xs ++ slash ∷ ys) ≡ (is_utf8 xs && is_utf8 ys)
unfolding is_utf8
is_utf8-slash xs ys = utf8_from-slash start xs ys

join_pieces :
    (p : List ℕ) (ps : List (List ℕ))
    → is_utf8 (join (p ∷ ps)) ≡ true
    → All (λ q. is_utf8 q ≡ true) (p ∷ ps)
unfolding join
join_pieces p [] h = (h, tt)
join_pieces p (q ∷ ps) h =
    let both : (is_utf8 p && is_utf8 (join (q ∷ ps))) ≡ true = rw (← is_utf8-slash) h in
    let whole : is_utf8 p ≡ true = ground arith in
    let rest : is_utf8 (join (q ∷ ps)) ≡ true = ground arith in (whole, join_pieces q ps rest)

-- Between slashes, each piece of a text is a text.
pub split-is_utf8 : (cs : List ℕ) → is_utf8 cs ≡ true → All (λ q. is_utf8 q ≡ true) (split cs)
split-is_utf8 cs h =
    let (p, ps, e) = split_cons cs in
    let same : join (p ∷ ps) ≡ cs = rw (← e) (join-split cs) in rw e (join_pieces p ps (rw same h))

next-lt : (s : State) (b : ℕ) {t : State} → next s b ≡ some t → b < 256
unfolding next
next-lt start b h = ground arith
next-lt _ b h = ground arith

utf8_from-bytes : (s : State) (bs : List ℕ) → utf8_from s bs ≡ true → AreBytes bs
unfolding utf8_from
utf8_from-bytes s [] h = tt
utf8_from-bytes s (b ∷ bs) h = elim (Option-cases (next s b)) [
  | inl e ↦ cc (rw (e, utf8_from) at h)
  | inr (t, e) ↦ (next-lt s b e, utf8_from-bytes t bs (rw (e, utf8_from) at h))
]

pub is_utf8-bytes : (bs : List ℕ) → is_utf8 bs ≡ true → AreBytes bs
unfolding is_utf8
is_utf8-bytes bs h = utf8_from-bytes start bs h
