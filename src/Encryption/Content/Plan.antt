-- ===== src/Encryption/Content/Plan.antt =====
-- src/encryption/content.rs: the plan of a ranged read.
use hf_mount_encrypted.Base.{ℕ, ◌+◌, ◌-◌, ◌*◌, ◌/◌, ◌^◌, ◌≤◌, ◌<◌, ◌≡◌, subst, some, arith}
use hf_mount_encrypted.Encryption.Content.Sizes.{container_chunk_count-some}
use hf_mount_encrypted.Encryption.Content.{
  hfeb_header_len, container_header_len, raf_chunk_size, raf_chunk_record, container_chunk_count,
  ReadPlan, header_span, plan_slots, plan_read,
}

-- The bytes of the object that hold slot `k` of the container.
abbrev pub slot_start : ℕ → ℕ
slot_start k = container_header_len + k * raf_chunk_record

-- What a plan for a read of `len` bytes at `off` promises.
pub record Covers (object_size chunks off len : ℕ) (p : ReadPlan) : Type 0 where
  -- The slots lie inside the object, behind its header, and start where the plan says.
  pub inside : p.slots_object.end ≤ object_size
  pub ordered : p.slots_object.start ≤ p.slots_object.end
  pub raf_size : p.raf_size + hfeb_header_len ≡ object_size
  pub header : p.header_object ≡ header_span
  -- Each byte of the read that the container has is in a slot that is fetched.
  pub complete :
      (pos : ℕ)
      → off ≤ pos
      → pos < off + len
      → pos < chunks * raf_chunk_size
      → (p.slots_object.start ≤ slot_start (pos / raf_chunk_size))
        × (slot_start (pos / raf_chunk_size + 1) ≤ p.slots_object.end)
  pub base :
      p.slots_object.start < p.slots_object.end
      → p.slot_base_raf + hfeb_header_len ≡ p.slots_object.start
  -- No more is fetched than two slots above what the read needs.
  pub lean :
      (p.slots_object.end - p.slots_object.start) * raf_chunk_size
      ≤ (len + 2 * raf_chunk_size) * raf_chunk_record

module _ (chunks off len : ℕ) (h : slot_start chunks < 2 ^ 64) where
  complete_plan :
      (pos : ℕ)
      → off ≤ pos
      → pos < off + len
      → pos < chunks * raf_chunk_size
      → let p = plan_slots (slot_start chunks) chunks off len in
        (p.slots_object.start ≤ slot_start (pos / raf_chunk_size))
        × (slot_start (pos / raf_chunk_size + 1) ≤ p.slots_object.end)
  unfolding plan_slots
  complete_plan pos lo hi room = ground arith

  lean_plan :
      let p = plan_slots (slot_start chunks) chunks off len in
      (p.slots_object.end - p.slots_object.start) * raf_chunk_size
      ≤ (len + 2 * raf_chunk_size) * raf_chunk_record
  unfolding plan_slots
  lean_plan = ground arith

  rest_plan :
      let p = plan_slots (slot_start chunks) chunks off len in
      (p.slots_object.end ≤ slot_start chunks)
      × (p.slots_object.start ≤ p.slots_object.end)
      × (p.raf_size + hfeb_header_len ≡ slot_start chunks)
      × (p.slots_object.start < p.slots_object.end
          → p.slot_base_raf + hfeb_header_len ≡ p.slots_object.start)
  unfolding plan_slots
  rest_plan = ground arith

  header_plan : (plan_slots (slot_start chunks) chunks off len).header_object ≡ header_span
  unfolding plan_slots
  header_plan = ground arith

  plan_slots-Covers :
      Covers (slot_start chunks) chunks off len (plan_slots (slot_start chunks) chunks off len)
  plan_slots-Covers = record {
    inside = rest_plan.0;
    ordered = rest_plan.1;
    raf_size = rest_plan.2;
    header = header_plan;
    complete = complete_plan;
    base = rest_plan.3;
    lean = lean_plan;
  }

-- A read of a valid container is planned, and the plan covers it. The read may reach past the end
-- of the file, and past what a `u64` counts.
pub plan_read-Covers :
    (object_size chunks off len : ℕ)
    → object_size < 2 ^ 64
    → container_chunk_count object_size ≡ some chunks
    → (p : ReadPlan) × (plan_read object_size off len ≡ some p)
      × Covers object_size chunks off len p
unfolding plan_read
plan_read-Covers object_size chunks off len h e =
    let size : object_size ≡ slot_start chunks =
      (container_chunk_count-some object_size chunks).0 e in
    (
      plan_slots object_size chunks off len,
      rw (e, plan_read),
      rw size (plan_slots-Covers chunks off len (rw size at h)),
    )

module _ {object_size chunks : ℕ} (off len : ℕ) {p : ReadPlan} (h : object_size < 2 ^ 64)
    (e : container_chunk_count object_size ≡ some chunks)
    (planned : plan_read object_size off len ≡ some p) where
  pub planned-Covers : Covers object_size chunks off len p
  planned-Covers =
      let (q, is, c) = plan_read-Covers object_size chunks off len h e in
      let same : q ≡ p = cc in subst (Covers object_size chunks off len) same c

  -- Each byte of the read that the container has lies in a slot that the plan fetches whole.
  pub plan_read_complete :
      (pos : ℕ)
      → off ≤ pos
      → pos < off + len
      → pos < chunks * raf_chunk_size
      → (p.slots_object.start ≤ slot_start (pos / raf_chunk_size))
        × (slot_start (pos / raf_chunk_size + 1) ≤ p.slots_object.end)
  plan_read_complete = planned-Covers.complete

  -- The plan stays inside the object, and fetches at most two slots more than the read needs.
  pub plan_read_lean :
      (p.slots_object.end ≤ object_size)
      × ((p.slots_object.end - p.slots_object.start) * raf_chunk_size
          ≤ (len + 2 * raf_chunk_size) * raf_chunk_record)
  plan_read_lean = (planned-Covers.inside, planned-Covers.lean)
