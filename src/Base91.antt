-- ===== src/Base91.antt =====
-- src/base91.rs: basE91 over a filesystem-safe alphabet. A `u32` is a number with its shifts
-- wrapped at 2 ^ 32, a byte string is a list of numbers below 256, `out.push` is the list of what
-- a step appends, and each `for` loop is a recursion on its input.
pub mod Pairs
pub mod Alphabet
pub mod Step
pub mod RoundTrip
pub mod Bounds
mod Tests
use Prim.Native.String.{String}
use Prim.Native.Char.{code}
use hf_mount_encrypted.Base.{
  ℕ, zero, suc, ◌+◌, ◌-◌, ◌*◌, ◌/◌, ◌%◌, ◌^◌, bit_or, Bool, true, false, ◌||◌, Option, none, some,
  List, [], ◌∷◌, ◌++◌, length, get_or, set, replicate, ltb, leb, ◌==◌, if◌then◌else◌,
}
use hf_mount_encrypted.Base.Results.{Result, ok, err, ◌>>=◌}

-- The bytes of an ASCII text.
abbrev pub bytes : String → List ℕ
bytes String.[] = []
bytes (String.◌∷◌ c s) = code c ∷ bytes s

-- `ALPHABET`; 34 is the double quote at its end.
unfoldable pub alphabet : List ℕ
alphabet =
    bytes
      "ABCDEFGHIJKLMNOPQRSTUVWXYZabcdefghijklmnopqrstuvwxyz0123456789!#$%&()*+,.':;<=>?@[]^_`{|}~"
    ++ 34 ∷ []

-- `NONE`
abbrev pub none_index : ℕ
none_index = 0xff

-- The `while` loop that fills `INVERSE`.
unfoldable pub fill_inverse : ℕ → List ℕ → List ℕ → List ℕ
fill_inverse i [] inv = inv
fill_inverse i (c ∷ cs) inv = fill_inverse (i + 1) cs (set inv c i)

unfoldable pub inverse : List ℕ
unfolding fill_inverse alphabet
inverse = fill_inverse 0 alphabet (replicate 256 none_index)

-- `ALPHABET[i]` and `INVERSE[x]`. An index out of range is a panic in the source; the default
-- stands for it, and 0 is no character of the alphabet.
unfoldable pub alphabet_at : ℕ → ℕ
unfolding alphabet
alphabet_at i = get_or alphabet i 0

unfoldable pub inverse_at : ℕ → ℕ
unfolding inverse
inverse_at x = get_or inverse x none_index

pub data Error : Type 0 where
  invalid_character invalid_padding : Error

unfoldable pub encoded_len_upper_bound : ℕ → ℕ
encoded_len_upper_bound src_len =
    let input_bits = src_len * 8 in
    let full_blocks = input_bits / 13 in
    let remaining_bits = input_bits % 13 in
    if ltb 0 remaining_bits then full_blocks * 2 + 2 else full_blocks * 2

-- `x << n` on a `u32`.
abbrev pub shl32 : ℕ → ℕ → ℕ
shl32 x n = x * 2 ^ n % 2 ^ 32

-- What one round of the loop of `encode` pushes, and the loop's variables after it.
pub record EncodeStep : Type 0 where
  pub pushed : List ℕ
  pub acc : ℕ
  pub num_bits : ℕ

-- `out.push(ALPHABET[v % 91]); out.push(ALPHABET[v / 91])`
abbrev pub push_pair : ℕ → List ℕ
push_pair v = alphabet_at (v % 91) ∷ alphabet_at (v / 91) ∷ []

-- `acc & 0x1fff` and `acc & 0x3fff` are the remainders by 2 ^ 13 and 2 ^ 14.
unfoldable pub encode_step : ℕ → ℕ → ℕ → EncodeStep
encode_step acc num_bits x =
    let acc' = bit_or acc (shl32 x num_bits) in
    let bits = num_bits + 8 in
    if ltb 13 bits
    then if ltb 88 (acc' % 2 ^ 13)
      then record { pushed = push_pair (acc' % 2 ^ 13); acc = acc' / 2 ^ 13; num_bits = bits - 13 }
      else record { pushed = push_pair (acc' % 2 ^ 14); acc = acc' / 2 ^ 14; num_bits = bits - 14 }
    else record { pushed = []; acc = acc'; num_bits = bits }

-- After the loop.
unfoldable pub encode_tail : ℕ → ℕ → List ℕ
encode_tail acc num_bits =
    if ltb 0 num_bits
    then alphabet_at (acc % 91)
      ∷ (if ltb 7 num_bits || ltb 90 acc then alphabet_at (acc / 91) ∷ [] else [])
    else []

unfoldable pub encode_loop : ℕ → ℕ → List ℕ → List ℕ
encode_loop acc num_bits [] = encode_tail acc num_bits
encode_loop acc num_bits (x ∷ xs) =
    let s = encode_step acc num_bits x in s.pushed ++ encode_loop s.acc s.num_bits xs

unfoldable pub encode : List ℕ → List ℕ
unfolding encode_step encode_tail encode_loop alphabet_at
encode src = encode_loop 0 0 src

-- The bytes that the inner `loop` pushes, and its variables after it.
pub record DecodeStep : Type 0 where
  pub pushed : List ℕ
  pub b : ℕ
  pub num_bits : ℕ

-- The inner `loop` of `decode`, which pushes a byte before it tests. Its bits fall by 8 in each
-- round, so that as many rounds as there are bits suffice.
unfoldable pub pop_bytes : ℕ → ℕ → ℕ → DecodeStep
pop_bytes zero b num_bits = record { pushed = []; b = b; num_bits = num_bits }
pop_bytes (suc fuel) b num_bits = elim (leb (num_bits - 8) 7) [
  | true ↦ record { pushed = b % 256 ∷ []; b = b / 256; num_bits = num_bits - 8 }
  | false ↦
      let rest = pop_bytes fuel (b / 256) (num_bits - 8) in
      record { pushed = b % 256 ∷ rest.pushed; b = rest.b; num_bits = rest.num_bits }
]

-- The `Some(acc_v)` arm of the loop of `decode`, with the index of the second character.
unfoldable pub decode_pair : ℕ → ℕ → ℕ → ℕ → DecodeStep
unfolding pop_bytes
decode_pair acc_v idx b num_bits =
    let a = acc_v + idx * 91 in
    let b' = bit_or b (shl32 a num_bits) in
    let bits = num_bits + (if ltb 88 (a % 2 ^ 13) then 13 else 14) in pop_bytes bits b' bits

-- After the loop.
unfoldable pub decode_tail : Option ℕ → ℕ → ℕ → Result Error (List ℕ)
decode_tail (some a) b num_bits =
    let last = bit_or b (shl32 a num_bits) in
    if ltb 0xff last then err invalid_padding else ok (last % 256 ∷ [])
decode_tail none b num_bits = if b == 0 then ok [] else err invalid_padding

unfoldable pub decode_loop : Option ℕ → ℕ → ℕ → List ℕ → Result Error (List ℕ)
unfolding decode_tail decode_pair
decode_loop acc b num_bits [] = decode_tail acc b num_bits
decode_loop acc b num_bits (x ∷ xs) = elim (inverse_at x == none_index) [
  | true ↦ err invalid_character
  | false ↦ elim acc [
    | some acc_v ↦
        let s = decode_pair acc_v (inverse_at x) b num_bits in
        do rest ← decode_loop none s.b s.num_bits xs; ok (s.pushed ++ rest)
    | none ↦ decode_loop (some (inverse_at x)) b num_bits xs
  ]
]

unfoldable pub decode : List ℕ → Result Error (List ℕ)
unfolding decode_loop inverse_at
decode src = decode_loop none 0 0 src
