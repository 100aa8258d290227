-- ===== src/Prefetch/Misplaced.antt =====
-- A drain into an empty seek window: the bytes are kept under the place that the window had.
use hf_mount_encrypted.Base.{
  ℕ, ◌+◌, ◌-◌, ◌≤◌, ◌<◌, ◌^◌, ◌≡◌, refl, ap, ap₂, ◌∙◌, Bool, true, false, ◌&&◌, ◌||◌, List, [], ◌∷◌,
  ◌++◌, length, slice, take, min, leb, ltb, arith, length-slice, slice-slice, some,
}
use hf_mount_encrypted.Base.Word.{add64}
use hf_mount_encrypted.Prefetch.{
  PrefetchState, drain_to_seek, fill_seek, fill_case, joins_window, trim_seek, copy_chunks_to_seek,
  seek_window, is_empty, read_chunk_range, try_serve_seek,
}
use hf_mount_encrypted.Prefetch.Mirror.{Mirrors}
use hf_mount_encrypted.Prefetch.Drain.{drain_to_seek-popped, popped}
use hf_mount_encrypted.Prefetch.Window.{read_chunk_range-file}

trim_seek-short : (s : PrefetchState) → length s.seek_data ≤ seek_window → trim_seek s ≡ s
unfolding trim_seek
trim_seek-short s short =
    let e : ltb seek_window (length s.seek_data) ≡ false = ground (arith, short) in rw e refl

is_empty_of : (l : List ℕ) → l ≡ [] → is_empty l ≡ true
is_empty_of l e = ap is_empty e

is_empty_some : (l : List ℕ) → 0 < length l → is_empty l ≡ false
is_empty_some [] h = absurd (omega (arith, h))
is_empty_some (x ∷ l) h = refl

-- A window that is not empty answers at its own place.
try_serve_seek-start :
    (size : ℕ) (s : PrefetchState)
    → s.forward_only ≡ false
    → 0 < length s.seek_data
    → size ≤ length s.seek_data
    → s.seek_start + length s.seek_data < 2 ^ 63
    → try_serve_seek s.seek_start size s ≡ some (take size s.seek_data)
unfolding try_serve_seek
try_serve_seek-start size s both_ways held fits room =
    let tried : (s.forward_only || is_empty s.seek_data) ≡ false =
      ap₂ ◌||◌ both_ways (is_empty_some s.seek_data held) in
    let inside : (leb s.seek_start s.seek_start
          && ltb s.seek_start (add64 s.seek_start (length s.seek_data)))
        ≡ true =
      ground (arith, held, room) in
    let at : s.seek_start - s.seek_start ≡ 0 = omega arith in
    let as_much : min size (length s.seek_data - (s.seek_start - s.seek_start)) ≡ size =
      omega (arith, fits) in
    rw (tried, inside) (ap₂ (λ (i n : ℕ). some (slice i n s.seek_data)) at as_much)

module _ (file : List ℕ) (s : PrefetchState) (consumed : ℕ) (m : Mirrors file s)
    (both_ways : s.forward_only ≡ false) (window_empty : s.seek_data ≡ [])
    (some_consumed : 0 < consumed) (consumed_held : consumed ≤ s.chunks_len)
    (consumed_small : consumed ≤ seek_window) where
  moved :
      s.seek_data ++ read_chunk_range s.chunks s.chunks_front_offset 0 consumed
      ≡ slice s.buf_start consumed file
  moved =
      ap (λ (l : List ℕ). l ++ read_chunk_range s.chunks s.chunks_front_offset 0 consumed)
        window_empty
      ∙ read_chunk_range-file file s 0 consumed m (omega (arith, consumed_held))
      ∙ ap (λ (i : ℕ). slice i consumed file) (omega arith)

  length-moved : length (copy_chunks_to_seek 0 consumed s).seek_data ≡ consumed
  unfolding copy_chunks_to_seek
  length-moved =
      ap length moved
      ∙ length-slice s.buf_start consumed file (omega (arith, m.within, consumed_held))

  joined : (joins_window consumed s) ≡ true
  unfolding joins_window
  joined = ground (arith, is_empty_of s.seek_data window_empty, consumed_small)

  filled : fill_seek consumed s ≡ copy_chunks_to_seek 0 consumed s
  unfolding fill_seek fill_case
  filled =
      ap₂ (λ (f c : Bool). fill_case f c consumed s) both_ways joined
      ∙ trim_seek-short (copy_chunks_to_seek 0 consumed s)
          (omega (arith, length-moved, consumed_small))

  drained : drain_to_seek consumed s ≡ popped consumed (copy_chunks_to_seek 0 consumed s)
  drained =
      let whole : min consumed s.chunks_len ≡ consumed = omega (arith, consumed_held) in
      drain_to_seek-popped consumed s (ground (arith, some_consumed))
      ∙ ap (λ (k : ℕ). popped k (fill_seek k s)) whole
      ∙ ap (popped consumed) filled

  -- Where the window is empty at another place than the buffer's start, it takes the drained bytes
  -- for those at its own place: behind the drain, a backward read at `seek_start` is handed the bytes
  -- that the file holds at `buf_start`.
  pub try_serve_seek-misplaced :
      (size : ℕ) (low : s.seek_start + consumed < 2 ^ 63) (size_small : size ≤ consumed)
      → try_serve_seek s.seek_start size (drain_to_seek consumed s)
        ≡ some (slice s.buf_start size file)
  unfolding copy_chunks_to_seek
  try_serve_seek-misplaced size low size_small =
      ap (try_serve_seek s.seek_start size) drained
      ∙ try_serve_seek-start size (popped consumed (copy_chunks_to_seek 0 consumed s)) both_ways
          (omega (arith, length-moved, some_consumed)) (omega (arith, length-moved, size_small))
          (omega (arith, length-moved, low))
      ∙ ap (λ (l : List ℕ). some (take size l)) moved
      ∙ ap some (
          slice-slice 0 size s.buf_start consumed file (omega (arith, size_small))
          ∙ ap (λ (i : ℕ). slice i size file) (omega arith))
