-- ===== src/Prefetch/Drain.antt =====
-- `drain_to_seek` keeps the buffers true to the file, but for one case.
use hf_mount_encrypted.Base.{
  ℕ, ◌+◌, ◌-◌, ◌≤◌, ◌≡◌, inl, inr, refl, sym, ap, ap₂, ◌∙◌, Bool, true, false, List, length, slice,
  take, drop, min, ltb, ◌==◌, arith, Bool-cases, drop-take, drop-drop,
}
use hf_mount_encrypted.Base.Word.{add64}
use hf_mount_encrypted.Prefetch.{
  PrefetchState, drain_to_seek, fill_seek, fill_case, joins_window, trim_seek, copy_chunks_to_seek,
  pop_consumed, seek_window,
}
use hf_mount_encrypted.Prefetch.Chunks.{
  pop_consumed-contents, pop_consumed-len, pop_consumed-FrontIn,
}
use hf_mount_encrypted.Prefetch.Mirror.{Mirrors, length-contents}

-- The fields that filling the seek window leaves alone.
abbrev pub SameFront : PrefetchState → PrefetchState → Type 0
SameFront s u =
    (u.chunks ≡ s.chunks)
    × (u.chunks_len ≡ s.chunks_len)
    × (u.chunks_front_offset ≡ s.chunks_front_offset)
    × (u.buf_start ≡ s.buf_start)
    × (u.file_size ≡ s.file_size)
    × (u.forward_only ≡ s.forward_only)
    × (u.window_size ≡ s.window_size)
    × (u.stream ≡ s.stream)

trim_seek_lem : (s : PrefetchState) → SameFront s (trim_seek s)
unfolding trim_seek
trim_seek_lem s = elim (Bool-cases (ltb seek_window (length s.seek_data))) [
  | inl h ↦ rw h (refl, refl, refl, refl, refl, refl, refl, refl)
  | inr h ↦ rw h (refl, refl, refl, refl, refl, refl, refl, refl)
]

fill_case_lem :
    (f c : Bool) (to_move : ℕ) (s : PrefetchState) → SameFront s (fill_case f c to_move s)
unfolding fill_case copy_chunks_to_seek
fill_case_lem true c to_move s = (refl, refl, refl, refl, refl, refl, refl, refl)
fill_case_lem false true to_move s = trim_seek_lem (copy_chunks_to_seek 0 to_move s)
fill_case_lem false false to_move s = (refl, refl, refl, refl, refl, refl, refl, refl)

pub fill_seek_lem : (to_move : ℕ) (s : PrefetchState) → SameFront s (fill_seek to_move s)
unfolding fill_seek
fill_seek_lem to_move s = fill_case_lem s.forward_only (joins_window to_move s) to_move s

SameFront-Mirrors :
    (file : List ℕ) (s u : PrefetchState) → SameFront s u → Mirrors file s → Mirrors file u
SameFront-Mirrors file s u same m = record {
  sized = same.4 ∙ m.sized;
  room = m.room;
  within = omega (arith, same.1, same.3, m.within);
  held = rw (same.0, same.1, same.2, same.3) m.held;
  front = rw (same.0, same.2) m.front;
}

-- The pops that follow.
abbrev pub popped : ℕ → PrefetchState → PrefetchState
popped to_move u =
    let p = pop_consumed to_move u.chunks u.chunks_len u.chunks_front_offset in
    record u {
      chunks = p.0;
      chunks_len = p.1;
      chunks_front_offset = p.2;
      buf_start = add64 u.buf_start to_move;
    }

pub slice-drop : (i n k : ℕ) (l : List ℕ) → k ≤ n → drop k (slice i n l) ≡ slice (i + k) (n - k) l
slice-drop i n k l le =
    let e : n ≡ k + (n - k) = omega (arith, le) in
    ap (λ (j : ℕ). drop k (take j (drop i l))) e
    ∙ drop-take k (n - k) (drop i l)
    ∙ ap (take (n - k)) (drop-drop k i l)

popped-Mirrors :
    (file : List ℕ) (to_move : ℕ) (u : PrefetchState)
    → Mirrors file u
    → to_move ≤ u.chunks_len
    → Mirrors file (popped to_move u)
popped-Mirrors file to_move u m le =
    let len =
      pop_consumed-len to_move u.chunks u.chunks_len u.chunks_front_offset
        (sym (length-contents file u m)) le in
    let start : add64 u.buf_start to_move ≡ u.buf_start + to_move =
      omega (arith, m.within, m.room, le) in
    record {
      sized = m.sized;
      room = m.room;
      within = omega (arith, len, start, m.within, le);
      held =
          pop_consumed-contents to_move u.chunks u.chunks_len u.chunks_front_offset
          ∙ ap (drop to_move) m.held
          ∙ slice-drop u.buf_start u.chunks_len to_move file le
          ∙ ap₂ (λ (i n : ℕ). slice i n file) (sym start) (sym len);
      front = pop_consumed-FrontIn to_move u.chunks u.chunks_len u.chunks_front_offset m.front;
    }

pub drain_to_seek-popped :
    (consumed : ℕ) (s : PrefetchState)
    → (consumed == 0) ≡ false
    → drain_to_seek consumed s
      ≡ popped (min consumed s.chunks_len) (fill_seek (min consumed s.chunks_len) s)
unfolding drain_to_seek
drain_to_seek-popped consumed s h =
    let same = fill_seek_lem (min consumed s.chunks_len) s in rw h (rw same.3 refl)

-- The forward buffer stays true to the file, whatever part of it is consumed.
pub drain_to_seek-Mirrors :
    (file : List ℕ) (consumed : ℕ) (s : PrefetchState)
    → Mirrors file s
    → Mirrors file (drain_to_seek consumed s)
unfolding drain_to_seek
drain_to_seek-Mirrors file consumed s m = elim (Bool-cases (consumed == 0)) [
  | inl h ↦ rw h m
  | inr h ↦
      let to_move = min consumed s.chunks_len in
      let same = fill_seek_lem to_move s in
      rw (drain_to_seek-popped consumed s h) (
        popped-Mirrors file to_move (fill_seek to_move s)
          (SameFront-Mirrors file s (fill_seek to_move s) same m) (omega (arith, same.1)))
]

-- What a drain keeps: the file's size, the window, the stream, and the end of the buffer.
pub record Kept (s u : PrefetchState) : Type 0 where
  pub file_size_kept : u.file_size ≡ s.file_size
  pub window_kept : u.window_size ≡ s.window_size
  pub stream_kept : u.stream ≡ s.stream
  pub end_kept : u.buf_start + u.chunks_len ≡ s.buf_start + s.chunks_len

pub drain_to_seek-Kept :
    (file : List ℕ) (consumed : ℕ) (s : PrefetchState)
    → Mirrors file s
    → Kept s (drain_to_seek consumed s)
unfolding drain_to_seek
drain_to_seek-Kept file consumed s m = elim (Bool-cases (consumed == 0)) [
  | inl h ↦
      rw h
        (record { file_size_kept = refl; window_kept = refl; stream_kept = refl; end_kept = refl })
  | inr h ↦
      let to_move = min consumed s.chunks_len in
      let u = fill_seek to_move s in
      let same = fill_seek_lem to_move s in
      let mu = SameFront-Mirrors file s u same m in
      let len =
        pop_consumed-len to_move u.chunks u.chunks_len u.chunks_front_offset
          (sym (length-contents file u mu)) (omega (arith, same.1)) in
      rw h (record {
        file_size_kept = same.4;
        window_kept = same.6;
        stream_kept = same.7;
        end_kept = omega (arith, len, same.1, m.within, m.room);
      })
]
