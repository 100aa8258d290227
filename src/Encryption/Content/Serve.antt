-- ===== src/Encryption/Content/Serve.antt =====
-- src/encryption/content.rs: `ReadIo`, filled with the two ranges of a plan, against the object.
use hf_mount_encrypted.Base.{
  ℕ, zero, suc, ◌⊎◌, ◌+◌, ◌-◌, ◌*◌, ◌/◌, ◌^◌, ◌≤◌, ◌<◌, ◌≡◌, refl, ap, ◌∙◌, some, List, arith,
  length, slice, slice-slice, length-slice, inl, inr,
}
use hf_mount_encrypted.Base.Results.{ok}
use hf_mount_encrypted.Encryption.Content.{
  hfeb_header_len, raf_header_len, raf_chunk_size, raf_chunk_record, container_chunk_count,
  ReadPlan, Span, plan_read, ReadIo, read_at,
}
use hf_mount_encrypted.Encryption.Content.Sizes.{container_chunk_count-some}
use hf_mount_encrypted.Encryption.Content.Plan.{Covers, slot_start, planned-Covers}

-- The bytes of a range of the object.
abbrev pub fetch : Span → List ℕ → List ℕ
fetch s object = slice s.start (s.end - s.start) object

-- The reader that a plan asks for.
abbrev pub reader : ReadPlan → List ℕ → ReadIo
reader p object = record {
  raf_size = p.raf_size;
  header = fetch p.header_object object;
  slot_base = p.slot_base_raf;
  slots = fetch p.slots_object object;
}

-- The two sources of a success.
read_cases :
    (io : ReadIo) (n offset : ℕ) {bytes : List ℕ}
    → read_at io n offset ≡ ok bytes
    → ((offset + n ≤ length io.header) × (bytes ≡ slice offset n io.header))
      ⊎ ((io.slot_base ≤ offset)
          × (offset + n ≤ io.slot_base + length io.slots)
          × (bytes ≡ slice (offset - io.slot_base) n io.slots))
unfolding read_at
read_cases io n offset h = ground arith

read_slots :
    (io : ReadIo) (n offset : ℕ)
    → offset + n < 2 ^ 64
    → length io.header < offset + n
    → io.slot_base ≤ offset
    → offset + n ≤ io.slot_base + length io.slots
    → read_at io n offset ≡ ok (slice (offset - io.slot_base) n io.slots)
unfolding read_at
read_slots io n offset fits beyond lo hi = ground arith

module _ (object : List ℕ) {chunks : ℕ} (off len : ℕ) {p : ReadPlan} (h : length object < 2 ^ 64)
    (e : container_chunk_count (length object) ≡ some chunks)
    (planned : plan_read (length object) off len ≡ some p) where
  c : Covers (length object) chunks off len p
  c = planned-Covers off len h e planned

  size : length object ≡ slot_start chunks
  size = (container_chunk_count-some (length object) chunks).0 e

  header_part : fetch p.header_object object ≡ slice 6 64 object
  header_part = ap (λ (s : Span). fetch s object) c.header

  header_size : length (fetch p.header_object object) ≡ 64
  header_size = ap length header_part ∙ length-slice 6 64 object (omega (arith, size))

  slots_size : length (fetch p.slots_object object) ≡ p.slots_object.end - p.slots_object.start
  slots_size = length-slice p.slots_object.start _ object (omega (arith, c.inside, c.ordered))

  -- A slice of the slots is a slice of the object.
  slots_slice :
      (n offset : ℕ)
      → p.slot_base_raf ≤ offset
      → offset + n ≤ p.slot_base_raf + length (fetch p.slots_object object)
      → slice (offset - p.slot_base_raf) n (fetch p.slots_object object)
        ≡ slice (hfeb_header_len + offset) n object
  slots_slice zero offset lo hi = refl
  slots_slice (suc n) offset lo hi =
      let some_slots : p.slots_object.start < p.slots_object.end = omega (arith, slots_size) in
      let place : p.slots_object.start + (offset - p.slot_base_raf) ≡ hfeb_header_len + offset =
        omega (arith, c.base some_slots) in
      slice-slice (offset - p.slot_base_raf) (suc n) p.slots_object.start _ object
        (omega (arith, slots_size))
      ∙ ap (λ (k : ℕ). slice k (suc n) object) place

  -- Whatever the reader serves is what the object holds at that place, 6 bytes further on.
  pub read_at-object :
      (n offset : ℕ) {bytes : List ℕ}
      → read_at (reader p object) n offset ≡ ok bytes
      → bytes ≡ slice (hfeb_header_len + offset) n object
  read_at-object n offset served = elim (read_cases (reader p object) n offset served) [
    | inl (within, is) ↦
        is
        ∙ ap (slice offset n) header_part
        ∙ slice-slice offset n 6 64 object (omega (arith, header_size))
    | inr (lo, hi, is) ↦ is ∙ slots_slice n offset lo hi
  ]

  -- Every slot that holds a byte of the read is served, whole.
  pub read_at-slot :
      (pos : ℕ)
      → off ≤ pos
      → pos < off + len
      → pos < chunks * raf_chunk_size
      → read_at
          (reader p object)
          raf_chunk_record
          (raf_header_len + pos / raf_chunk_size * raf_chunk_record)
        ≡ ok (slice (slot_start (pos / raf_chunk_size)) raf_chunk_record object)
  read_at-slot pos lo hi room =
      let k = pos / raf_chunk_size in
      let offset = raf_header_len + k * raf_chunk_record in
      let (first, last) = c.complete pos lo hi room in
      let based : p.slot_base_raf + hfeb_header_len ≡ p.slots_object.start = c.base (omega arith) in
      let low : p.slot_base_raf ≤ offset = omega arith in
      let high : offset + raf_chunk_record
          ≤ p.slot_base_raf + length (fetch p.slots_object object) =
        omega (arith, slots_size) in
      let place : hfeb_header_len + offset ≡ slot_start k = omega arith in
      read_slots (reader p object) raf_chunk_record offset (omega (arith, c.inside, slots_size, h))
        (omega (arith, header_size)) low high
      ∙ ap ok (
          slots_slice raf_chunk_record offset low high
          ∙ ap (λ (j : ℕ). slice j raf_chunk_record object) place)
