-- ===== src/Encryption/Content/Tests.antt =====
-- Runs of src/encryption/content.rs, and its theorems at concrete inputs.
use hf_mount_encrypted.Base.{
  ℕ, ◌+◌, ◌-◌, ◌*◌, ◌/◌, ◌≡◌, ◌≤◌, ◌↔◌, refl, none, some, List, [], ◌∷◌, ◌++◌, arith, length,
  replicate, length-replicate, slice, take, ◌^◌, ◌<◌, if◌then◌else◌, ◌==◌,
}
use hf_mount_encrypted.Base.Results.{ok, err}
use hf_mount_encrypted.Encryption.Content.{
  container_header_len, raf_chunk_size, raf_chunk_record, hfeb_header_len, raf_header_len,
  alg_aegis_128x2, div_ceil, write_header, parse_header, unknown_algorithm, ciphertext_size,
  container_chunk_count, plan_slots, plan_read, read_at, ReadPlan, header_span,
}
use hf_mount_encrypted.Encryption.Content.Sizes
use hf_mount_encrypted.Encryption.Content.Header
use hf_mount_encrypted.Encryption.Content.Plan
use hf_mount_encrypted.Encryption.Content.Plan.{slot_start}
use hf_mount_encrypted.Encryption.Content.Serve
use hf_mount_encrypted.Encryption.Content.Serve.{reader}

code : Unit {0}
unfolding write_header parse_header ciphertext_size container_chunk_count plan_slots plan_read
    read_at
code = tt

-- The sizes of the source's own tests.
sizes :
    (container_chunk_count 0 ≡ none)
    × (container_chunk_count container_header_len ≡ some 0)
    × (container_chunk_count (container_header_len + 10) ≡ none)
    × (container_chunk_count (ciphertext_size 1) ≡ some 1)
    × (container_chunk_count (ciphertext_size 200000) ≡ some 4)
unfolding code
sizes = (refl, refl, refl, refl, refl)

container_chunk_count-ciphertext_size_example :
    container_chunk_count (ciphertext_size 200000) ≡ some (div_ceil 200000 raf_chunk_size)
container_chunk_count-ciphertext_size_example =
    Sizes.container_chunk_count-ciphertext_size 200000 (omega arith)

container_chunk_count-some_example :
    (container_chunk_count 65638 ≡ some 1) ↔ (65638 ≡ container_header_len + 1 * raf_chunk_record)
container_chunk_count-some_example = Sizes.container_chunk_count-some 65638 1

chunk_count_bounds_example : (200000 ≤ 4 * raf_chunk_size) × (4 * raf_chunk_size ≤ 200000 + 65535)
chunk_count_bounds_example =
    let r = Sizes.chunk_count_bounds 200000 4 (omega arith) sizes.4 in (r.0, omega arith)

parse_header-write_header_example :
    parse_header (write_header 7 ++ 9 ∷ [])
    ≡ (if 7 == alg_aegis_128x2 then ok alg_aegis_128x2 else err (unknown_algorithm 7))
parse_header-write_header_example = Header.parse_header-write_header 7 (9 ∷ [])

parse_header_iff_example :
    (parse_header (write_header 2) ≡ ok 2)
    ↔ ((2 ≡ alg_aegis_128x2) × (take 6 (write_header 2) ≡ write_header alg_aegis_128x2))
parse_header_iff_example = Header.parse_header_iff (write_header 2) 2

-- A read of 100 bytes across the end of the first of two chunks.
abbrev plan : ReadPlan
plan = record {
  header_object = header_span;
  slots_object = record { start = 70; end = 131206 };
  slot_base_raf = 64;
  raf_size = 131200;
}

planned : plan_read (slot_start 2) 65500 100 ≡ some plan
unfolding code
planned = refl

two_chunks : container_chunk_count (slot_start 2) ≡ some 2
unfolding code
two_chunks = refl

plan_read_complete_example : (70 ≤ slot_start 0) × (slot_start 1 ≤ 131206)
plan_read_complete_example =
    Plan.plan_read_complete 65500 100 (omega arith) two_chunks planned 65535 (omega arith)
      (omega arith) (omega arith)

plan_read_lean_example :
    (131206 ≤ slot_start 2)
    × ((131206 - 70) * raf_chunk_size ≤ (100 + 2 * raf_chunk_size) * raf_chunk_record)
plan_read_lean_example = Plan.plan_read_lean 65500 100 (omega arith) two_chunks planned

-- An object of one slot, filled with zeros.
one_slot : List ℕ
one_slot = replicate 65638 0

length-one_slot : length one_slot ≡ 65638
unfolding one_slot
length-one_slot = length-replicate {A = ℕ} 65638 0

one_chunk : container_chunk_count (length one_slot) ≡ some 1
unfolding container_chunk_count
one_chunk = rw length-one_slot

abbrev small_plan : ReadPlan
small_plan = record {
  header_object = header_span;
  slots_object = record { start = 70; end = 65638 };
  slot_base_raf = 64;
  raf_size = 65632;
}

small_planned : plan_read (length one_slot) 10 20 ≡ some small_plan
unfolding code
small_planned = rw length-one_slot

small_size : length one_slot < 2 ^ 64
small_size = omega (arith, length-one_slot)

read_at-slot_example :
    read_at
      (reader small_plan one_slot)
      raf_chunk_record
      (raf_header_len + 15 / raf_chunk_size * raf_chunk_record)
    ≡ ok (slice (slot_start (15 / raf_chunk_size)) raf_chunk_record one_slot)
read_at-slot_example =
    Serve.read_at-slot one_slot 10 20 small_size one_chunk small_planned 15 (omega arith)
      (omega arith) (omega arith)

read_at-object_example :
    slice (slot_start (15 / raf_chunk_size)) raf_chunk_record one_slot
    ≡ slice
        (hfeb_header_len + (raf_header_len + 15 / raf_chunk_size * raf_chunk_record))
        raf_chunk_record
        one_slot
read_at-object_example =
    Serve.read_at-object one_slot 10 20 small_size one_chunk small_planned raf_chunk_record
      (raf_header_len + 15 / raf_chunk_size * raf_chunk_record) read_at-slot_example
