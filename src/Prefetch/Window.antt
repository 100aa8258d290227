-- ===== src/Prefetch/Window.antt =====
-- The seek window under `drain_to_seek`: when it stays true to the file, and when it does not.
use hf_mount_encrypted.Base.{
  ℕ, ◌+◌, ◌-◌, ◌≤◌, ◌<◌, ◌^◌, ◌≡◌, ◌⊎◌, inl, inr, refl, sym, ap, ap₂, ◌∙◌, Bool, true, false, ◌||◌,
  List, [], ◌∷◌, ◌++◌, length, slice, drop, min, ltb, ◌==◌, arith, Bool-cases, length-slice,
  slice-append, slice-slice,
}
use hf_mount_encrypted.Base.Word.{add64}
use hf_mount_encrypted.Prefetch.{
  PrefetchState, drain_to_seek, fill_seek, fill_case, joins_window, trim_seek, copy_chunks_to_seek,
  seek_window, is_empty, read_chunk_range,
}
use hf_mount_encrypted.Prefetch.Chunks.{read_chunk_range-slice}
use hf_mount_encrypted.Prefetch.Mirror.{Mirrors, MirrorsBack}
use hf_mount_encrypted.Prefetch.Drain.{slice-drop}

-- What the buffer hands out is the file's.
pub read_chunk_range-file :
    (file : List ℕ) (s : PrefetchState) (skip count : ℕ)
    → Mirrors file s
    → skip + count ≤ s.chunks_len
    → read_chunk_range s.chunks s.chunks_front_offset skip count
      ≡ slice (s.buf_start + skip) count file
read_chunk_range-file file s skip count m fits =
    read_chunk_range-slice s.chunks s.chunks_front_offset skip count
    ∙ ap (slice skip count) m.held
    ∙ slice-slice skip count s.buf_start s.chunks_len file fits

back_of :
    (file : List ℕ) (s : PrefetchState) (i n : ℕ)
    → s.seek_data ≡ slice i n file
    → s.seek_start ≡ i
    → i + n ≤ length file
    → MirrorsBack file s
back_of file s i n held start within =
    let len : length s.seek_data ≡ n = ap length held ∙ length-slice i n file within in
    record {
      back_within = omega (arith, len, start, within);
      back_held = held ∙ ap₂ (λ (j k : ℕ). slice j k file) (sym start) (sym len);
    }

trim_seek-MirrorsBack :
    (file : List ℕ) (s : PrefetchState)
    → length file < 2 ^ 63
    → MirrorsBack file s
    → MirrorsBack file (trim_seek s)
unfolding trim_seek
trim_seek-MirrorsBack file s room m = elim (Bool-cases (ltb seek_window (length s.seek_data))) [
  | inr h ↦ rw h m
  | inl h ↦
      let excess = length s.seek_data - seek_window in
      rw h (
        back_of file
          (record s { seek_data = drop excess s.seek_data; seek_start = add64 s.seek_start excess })
          (s.seek_start + excess) (length s.seek_data - excess)
          (ap (drop excess) m.back_held
            ∙ slice-drop s.seek_start (length s.seek_data) excess file (omega arith))
          (omega (arith, m.back_within, room)) (omega (arith, m.back_within)))
]

-- The window is not empty, or it is empty where the buffer starts.
abbrev pub WindowPlaced : PrefetchState → Type 0
WindowPlaced s = (is_empty s.seek_data ≡ false) ⊎ (s.seek_start ≡ s.buf_start)

pub is_empty_lem : (l : List ℕ) → is_empty l ≡ true → length l ≡ 0
is_empty_lem [] h = refl
is_empty_lem (x ∷ l) h = cc

meets :
    (file : List ℕ) (s : PrefetchState)
    → Mirrors file s
    → MirrorsBack file s
    → WindowPlaced s
    → (is_empty s.seek_data || add64 s.seek_start (length s.seek_data) == s.buf_start) ≡ true
    → s.seek_start + length s.seek_data ≡ s.buf_start
meets file s m b placed h = elim (Bool-cases (is_empty s.seek_data)) [
  | inl e ↦ elim placed [
    | inl p ↦ absurd (ground (arith, e, p))
    | inr p ↦ omega (arith, is_empty_lem s.seek_data e, p)
  ]
  | inr e ↦ ground (arith, e, h, b.back_within, m.room)
]

fill_case-MirrorsBack :
    (f c : Bool) (file : List ℕ) (to_move : ℕ) (s : PrefetchState)
    → Mirrors file s
    → MirrorsBack file s
    → (c ≡ true → s.seek_start + length s.seek_data ≡ s.buf_start)
    → to_move ≤ s.chunks_len
    → MirrorsBack file (fill_case f c to_move s)
unfolding fill_case copy_chunks_to_seek
fill_case-MirrorsBack true c file to_move s m b met le = b
fill_case-MirrorsBack false true file to_move s m b met le =
    let joined : s.seek_start + length s.seek_data ≡ s.buf_start = met refl in
    let moved : read_chunk_range s.chunks s.chunks_front_offset 0 to_move
        ≡ slice (s.seek_start + length s.seek_data) to_move file =
      read_chunk_range-file file s 0 to_move m (omega (arith, le))
      ∙ ap (λ (i : ℕ). slice i to_move file) (omega (arith, joined)) in
    trim_seek-MirrorsBack file (copy_chunks_to_seek 0 to_move s) m.room (
      back_of file (copy_chunks_to_seek 0 to_move s) s.seek_start (length s.seek_data + to_move)
        (ap₂ ◌++◌ b.back_held moved
          ∙ slice-append s.seek_start (length s.seek_data) to_move file b.back_within)
        refl (omega (arith, joined, m.within, le)))
fill_case-MirrorsBack false false file to_move s m b met le =
    let keep = min to_move seek_window in
    let start : add64 s.buf_start (to_move - keep) ≡ s.buf_start + (to_move - keep) =
      omega (arith, m.within, m.room, le) in
    back_of file (fill_case false false to_move s) (s.buf_start + (to_move - keep)) keep
      (read_chunk_range-file file s (to_move - keep) keep m (omega (arith, le))) start
      (omega (arith, m.within, le))

-- Draining keeps the seek window true to the file where the window is not empty, or is empty at the
-- place where the buffer starts.
pub drain_to_seek-MirrorsBack :
    (file : List ℕ) (consumed : ℕ) (s : PrefetchState)
    → Mirrors file s
    → MirrorsBack file s
    → WindowPlaced s
    → MirrorsBack file (drain_to_seek consumed s)
unfolding drain_to_seek fill_seek joins_window
drain_to_seek-MirrorsBack file consumed s m b placed = elim (Bool-cases (consumed == 0)) [
  | inl h ↦ rw h b
  | inr h ↦
      let to_move = min consumed s.chunks_len in
      let met : joins_window to_move s ≡ true → s.seek_start + length s.seek_data ≡ s.buf_start =
        λ c. meets file s m b placed (ground (arith, c)) in
      let filled =
        fill_case-MirrorsBack s.forward_only (joins_window to_move s) file to_move s m b met
          (omega arith) in
      rw h (record { back_within = filled.back_within; back_held = filled.back_held })
]
