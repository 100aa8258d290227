-- ===== src/Encryption/Content.antt =====
-- src/encryption/content.rs: the HFEB header, the map between plaintext and container sizes, and
-- the plan of a ranged read. A `u64` is a number below 2 ^ 64 with its sums and products wrapped;
-- a slice of bytes is a list.
pub mod Sizes
pub mod Header
pub mod Plan
pub mod Serve
mod Tests
use hf_mount_encrypted.Base.{
  ℕ, zero, suc, ◌+◌, ◌-◌, ◌*◌, ◌/◌, ◌%◌, ◌≤◌, Bool, true, false, ◌&&◌, ◌||◌, Option, none, some,
  List, [], ◌∷◌, length, get_or, take, slice, min, ltb, leb, ◌==◌, if◌then◌else◌, not,
}
use hf_mount_encrypted.Base.Results.{Result, ok, err}
use hf_mount_encrypted.Base.Word.{add64, mul64, saturating_add, checked_add, checked_sub}

abbrev pub hfeb_magic : List ℕ
hfeb_magic = b'H' ∷ b'F' ∷ b'E' ∷ b'B' ∷ []

abbrev pub hfeb_version : ℕ
hfeb_version = 1

abbrev pub hfeb_header_len : ℕ
hfeb_header_len = 6

abbrev pub alg_aegis_128x2 : ℕ
alg_aegis_128x2 = 2

abbrev pub raf_header_len : ℕ
raf_header_len = 64

abbrev pub raf_chunk_size : ℕ
raf_chunk_size = 65536

abbrev pub raf_chunk_overhead : ℕ
raf_chunk_overhead = 32

abbrev pub raf_chunk_record : ℕ
raf_chunk_record = raf_chunk_size + raf_chunk_overhead

abbrev pub container_header_len : ℕ
container_header_len = hfeb_header_len + raf_header_len

pub data HeaderError : Type 0 where
  truncated bad_magic : HeaderError
  unsupported_version unknown_algorithm : ℕ → HeaderError

-- The six bytes that `write_header` leaves in its buffer.
unfoldable pub write_header : ℕ → List ℕ
write_header algorithm = b'H' ∷ b'F' ∷ b'E' ∷ b'B' ∷ hfeb_version ∷ algorithm ∷ []

-- `==` on slices of bytes.
unfoldable pub bytes_eq : List ℕ → List ℕ → Bool
bytes_eq [] [] = true
bytes_eq [] (y ∷ ys) = false
bytes_eq (x ∷ xs) [] = false
bytes_eq (x ∷ xs) (y ∷ ys) = x == y && bytes_eq xs ys

-- The indices 4 and 5 are in range behind the first test.
unfoldable pub parse_header : List ℕ → Result HeaderError ℕ
unfolding bytes_eq
parse_header bytes =
    if ltb (length bytes) hfeb_header_len
    then err truncated
    else if not (bytes_eq (take 4 bytes) hfeb_magic)
    then err bad_magic
    else if not (get_or bytes 4 0 == hfeb_version)
    then err (unsupported_version (get_or bytes 4 0))
    else if get_or bytes 5 0 == alg_aegis_128x2
    then ok alg_aegis_128x2
    else err (unknown_algorithm (get_or bytes 5 0))

-- `n.div_ceil(m)`, which does not overflow.
abbrev pub div_ceil : ℕ → ℕ → ℕ
div_ceil n m = (n + m - 1) / m

unfoldable pub ciphertext_size : ℕ → ℕ
ciphertext_size plaintext =
    add64 container_header_len (mul64 (div_ceil plaintext raf_chunk_size) raf_chunk_record)

unfoldable pub container_chunk_count : ℕ → Option ℕ
container_chunk_count ciphertext = elim (checked_sub ciphertext container_header_len) [
  | none ↦ none
  | some body ↦ if body % raf_chunk_record == 0 then some (body / raf_chunk_record) else none
]

-- A `Range<u64>`.
pub record Span : Type 0 where
  pub start : ℕ
  pub end : ℕ

pub record ReadPlan : Type 0 where
  pub header_object : Span
  pub slots_object : Span
  pub slot_base_raf : ℕ
  pub raf_size : ℕ

abbrev pub header_span : Span
header_span = record { start = hfeb_header_len; end = hfeb_header_len + raf_header_len }

-- The plan for an object of `chunks` slots.
unfoldable pub plan_slots : ℕ → ℕ → ℕ → ℕ → ReadPlan
plan_slots object_size chunks off len =
    let raf_size = object_size - hfeb_header_len in
    let first = off / raf_chunk_size in
    let end = saturating_add off len in
    let last = min ((end - 1) / raf_chunk_size) (chunks - 1) in
    let slot_base_raf = add64 raf_header_len (mul64 first raf_chunk_record) in
    let slot_end_raf = add64 raf_header_len (mul64 (add64 last 1) raf_chunk_record) in
    if len == 0 || chunks == 0 || leb chunks first
    then record {
      header_object = header_span;
      slots_object = record { start = 0; end = 0 };
      slot_base_raf = raf_header_len;
      raf_size = raf_size;
    }
    else record {
      header_object = header_span;
      slots_object = record {
        start = add64 hfeb_header_len slot_base_raf;
        end = add64 hfeb_header_len slot_end_raf;
      };
      slot_base_raf = slot_base_raf;
      raf_size = raf_size;
    }

unfoldable pub plan_read : ℕ → ℕ → ℕ → Option ReadPlan
plan_read object_size off len = elim (container_chunk_count object_size) [
  | none ↦ none
  | some chunks ↦ some (plan_slots object_size chunks off len)
]

pub record ReadIo : Type 0 where
  pub raf_size : ℕ
  pub header : List ℕ
  pub slot_base : ℕ
  pub slots : List ℕ

-- The kinds of `std::io::Error` that the methods return.
pub data ErrorKind : Type 0 where
  invalid_input unexpected_eof unsupported : ErrorKind

-- `read_at` for a buffer of `len` bytes; a success is what the buffer then holds, which is the slice
-- that `copy_from_slice` takes.
unfoldable pub read_at : ReadIo → ℕ → ℕ → Result ErrorKind (List ℕ)
read_at io len offset = elim (checked_add offset len) [
  | none ↦ err invalid_input
  | some end ↦
      if leb end (length io.header)
      then ok (slice offset len io.header)
      else if leb io.slot_base offset && leb end (io.slot_base + length io.slots)
      then ok (slice (offset - io.slot_base) len io.slots)
      else err unexpected_eof
]

unfoldable pub get_size : ReadIo → Result ErrorKind ℕ
get_size io = ok io.raf_size

unfoldable pub write_at : ReadIo → List ℕ → ℕ → Result ErrorKind (Unit {0})
write_at io buf offset = err unsupported

unfoldable pub set_size : ReadIo → ℕ → Result ErrorKind (Unit {0})
set_size io size = err unsupported

-- What `aegis::raf::probe` reads from a RAF header.
pub record RafInfo : Type 0 where
  pub algorithm : ℕ
  pub chunk_size : ℕ
  pub file_size : ℕ

-- `probe` is the call of the crate `aegis`, which reads its argument through `read_at` and
-- `get_size`; `none` is its error.
unfoldable pub probe_plaintext_size : (ReadIo → Option RafInfo) → List ℕ → ℕ → Option ℕ
probe_plaintext_size probe raf_header size = elim (checked_sub size hfeb_header_len) [
  | none ↦ none
  | some raf_size ↦
      elim (probe (record {
        raf_size = raf_size;
        header = raf_header;
        slot_base = raf_header_len;
        slots = [];
      })) [
        | none ↦ none
        | some info ↦
            if not (info.algorithm == alg_aegis_128x2) || not (info.chunk_size == raf_chunk_size)
            then none
            else some info.file_size
      ]
]
