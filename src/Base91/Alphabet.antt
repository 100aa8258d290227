-- ===== src/Base91/Alphabet.antt =====
-- src/base91.rs: the two tables, and how `decode` reads one or two characters of the alphabet.
use hf_mount_encrypted.Base.{
  ℕ, ◌*◌, ◌/◌, ◌%◌, ◌<◌, ◌≡◌, refl, ◌∙◌, true, false, none, some, List, ◌∷◌, ◌++◌, arith, ◌==◌,
  ==_iff,
}
use hf_mount_encrypted.Base.Bits.{all_below, all_below_sound}
use hf_mount_encrypted.Base.Results.{Result, ok, ◌>>=◌}
use hf_mount_encrypted.Base91.{
  alphabet_at, inverse_at, none_index, push_pair, DecodeStep, decode_pair, decode_loop, Error,
}

-- What a round of `encode` pushes, fed to the decoder.
unfoldable pub feed : DecodeStep → List ℕ → Result Error (List ℕ)
feed s rest = do r ← decode_loop none s.b s.num_bits rest; ok (s.pushed ++ r)

all_indices : all_below 91 (λ i. inverse_at (alphabet_at i) == i) ≡ true
unfolding all_below inverse_at alphabet_at
all_indices = refl

-- The two tables are inverse to one another.
pub inverse_at-alphabet_at : (i : ℕ) → i < 91 → inverse_at (alphabet_at i) ≡ i
inverse_at-alphabet_at i h = (==_iff _ i).0 (all_below_sound 91 _ i h all_indices)

inverse_at-ne-none : (i : ℕ) → i < 91 → (i == none_index) ≡ false
inverse_at-ne-none i h = ground arith

pub decode_one :
    (i b k : ℕ) (rest : List ℕ)
    → i < 91
    → decode_loop none b k (alphabet_at i ∷ rest) ≡ decode_loop (some i) b k rest
unfolding decode_loop
decode_one i b k rest h =
    rw (inverse_at-alphabet_at i h, inverse_at-ne-none i h, decode_loop)
      (rw (inverse_at-alphabet_at i h))

decode_two :
    (a i b k : ℕ) (rest : List ℕ)
    → i < 91
    → decode_loop (some a) b k (alphabet_at i ∷ rest) ≡ feed (decode_pair a i b k) rest
unfolding decode_loop feed
decode_two a i b k rest h =
    rw (inverse_at-alphabet_at i h, inverse_at-ne-none i h, decode_loop)
      (rw (inverse_at-alphabet_at i h))

pub decode_push_pair :
    (v b k : ℕ) (rest : List ℕ)
    → v < 91 * 91
    → decode_loop none b k (push_pair v ++ rest) ≡ feed (decode_pair (v % 91) (v / 91) b k) rest
decode_push_pair v b k rest h =
    decode_one (v % 91) b k (alphabet_at (v / 91) ∷ rest) (omega arith)
    ∙ decode_two (v % 91) (v / 91) b k rest (omega arith)
