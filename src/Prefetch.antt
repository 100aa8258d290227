-- ===== src/Prefetch.antt =====
-- src/virtual_fs/prefetch.rs: the buffers of an open remote file. A `Bytes` is a list of bytes, a
-- `VecDeque` a list with its front first. Sizes in memory are `usize` values of 64 bits like the
-- offsets; sums wrap, and a difference is written as the source has it, where the invariant of
-- Prefetch/Mirror keeps it above zero.
pub mod Chunks
pub mod Mirror
pub mod Drain
pub mod Window
pub mod Serve
pub mod Misplaced
pub mod Plan
use hf_mount_encrypted.Base.{
  ℕ, zero, suc, ◌+◌, ◌-◌, ◌*◌, ◌≤◌, Bool, true, false, ◌&&◌, ◌||◌, not, Option, none, some, List,
  [], ◌∷◌, ◌++◌, length, take, drop, slice, min, max, ltb, leb, ◌==◌, if◌then◌else◌,
}
use hf_mount_encrypted.Base.Word.{add64, mul64, sub64}

abbrev pub initial_window : ℕ
initial_window = 8 * 1048576

abbrev pub max_window : ℕ
max_window = 128 * 1048576

abbrev pub seek_window : ℕ
seek_window = 1048576

abbrev pub forward_skip : ℕ
forward_skip = 16 * 1048576

pub data FetchStrategy : Type 0 where
  start_stream continue_stream range_download : FetchStrategy

unfoldable pub is_stream : FetchStrategy → Bool
is_stream start_stream = true
is_stream continue_stream = true
is_stream range_download = false

pub record FetchPlan : Type 0 where
  pub strategy : FetchStrategy
  pub fetch_size : ℕ

-- What a call of `next` on a download stream gives: `Ok(Some(chunk))`, or an error or a timeout.
pub data Event : Type 0 where
  chunk : List ℕ → Event
  failure : Event

-- A download stream is what it still gives; behind the last event stands `Ok(None)`.
abbrev pub Stream : Type 0
Stream = List Event

pub record PrefetchState : Type 0 where
  pub xet_hash : List ℕ
  pub file_size : ℕ
  pub chunks : List (List ℕ)
  pub chunks_len : ℕ
  pub chunks_front_offset : ℕ
  pub buf_start : ℕ
  pub seek_data : List ℕ
  pub seek_start : ℕ
  pub window_size : ℕ
  pub stream : Option Stream
  pub forward_only : Bool

abbrev pub is_none : {A : Type 0} → Option A → Bool
is_none none = true
is_none (some _) = false

abbrev pub is_empty : {A : Type 0} → List A → Bool
is_empty [] = true
is_empty (_ ∷ _) = false

unfoldable pub new : List ℕ → ℕ → Bool → PrefetchState
new xet_hash file_size forward_only = record {
  xet_hash = xet_hash;
  file_size = file_size;
  chunks = [];
  chunks_len = 0;
  chunks_front_offset = 0;
  buf_start = 0;
  seek_data = [];
  seek_start = 0;
  window_size = initial_window;
  stream = none;
  forward_only = forward_only;
}

-- The inner loop of `read_chunk_range`, over the chunks behind the first that is read.
unfoldable pub read_rest : ℕ → List (List ℕ) → List ℕ
read_rest remaining [] = []
read_rest remaining (c ∷ cs) =
    let rest = read_rest (remaining - min remaining (length c)) cs in
    take (min remaining (length c)) c
    ++ (if remaining - min remaining (length c) == 0 then [] else rest)

-- The outer loop; `start` is the front offset at the first chunk, and 0 behind it.
unfoldable pub read_from : ℕ → ℕ → ℕ → List (List ℕ) → List ℕ
read_from start logical_off count [] = []
read_from start logical_off count (c ∷ cs) =
    let later = read_from 0 (logical_off - (length c - start)) count cs in
    let chunk_start = start + logical_off in
    let chunk_avail = length c - chunk_start in
    if ltb logical_off (length c - start)
    then (if leb count chunk_avail
        then slice chunk_start count c
        else drop chunk_start c ++ read_rest (count - chunk_avail) cs)
    else later

unfoldable pub read_chunk_range : List (List ℕ) → ℕ → ℕ → ℕ → List ℕ
read_chunk_range chunks front_offset skip count =
    if count == 0 then [] else read_from front_offset skip count chunks

unfoldable pub copy_chunks_to_seek : ℕ → ℕ → PrefetchState → PrefetchState
copy_chunks_to_seek skip count s = record s {
  seek_data = s.seek_data ++ read_chunk_range s.chunks s.chunks_front_offset skip count;
}

-- `drain(..excess)` of a window that has grown too long.
unfoldable pub trim_seek : PrefetchState → PrefetchState
trim_seek s =
    let excess = length s.seek_data - seek_window in
    if ltb seek_window (length s.seek_data)
    then record s { seek_data = drop excess s.seek_data; seek_start = add64 s.seek_start excess }
    else s

-- The half of `drain_to_seek` that fills the seek window, by `forward_only` and by whether the bytes
-- join the window.
unfoldable pub fill_case : Bool → Bool → ℕ → PrefetchState → PrefetchState
fill_case true joins to_move s = s
fill_case false true to_move s = trim_seek (copy_chunks_to_seek 0 to_move s)
fill_case false false to_move s =
    let keep = min to_move seek_window in
    copy_chunks_to_seek (to_move - keep) keep
      (record s { seek_data = []; seek_start = add64 s.buf_start (to_move - keep) })

unfoldable pub joins_window : ℕ → PrefetchState → Bool
joins_window to_move s =
    let seek_end = add64 s.seek_start (length s.seek_data) in
    (is_empty s.seek_data || seek_end == s.buf_start) && leb to_move seek_window

unfoldable pub fill_seek : ℕ → PrefetchState → PrefetchState
fill_seek to_move s = fill_case s.forward_only (joins_window to_move s) to_move s

-- The loop that pops the consumed chunks, over the fields that it changes.
unfoldable pub pop_consumed : ℕ → List (List ℕ) → ℕ → ℕ → List (List ℕ) × ℕ × ℕ
pop_consumed remaining [] len front = ([], len, front)
pop_consumed remaining (c ∷ cs) len front =
    let eff = length c - front in
    let popped = pop_consumed (remaining - eff) cs (len - eff) 0 in
    if remaining == 0
    then (c ∷ cs, len, front)
    else if leb eff remaining
    then popped
    else (c ∷ cs, len - remaining, front + remaining)

unfoldable pub drain_to_seek : ℕ → PrefetchState → PrefetchState
drain_to_seek consumed s =
    let to_move = min consumed s.chunks_len in
    let filled = fill_seek to_move s in
    let popped = pop_consumed to_move filled.chunks filled.chunks_len filled.chunks_front_offset in
    if consumed == 0 then s else record filled {
      chunks = popped.0;
      chunks_len = popped.1;
      chunks_front_offset = popped.2;
      buf_start = add64 s.buf_start to_move;
    }

unfoldable pub store_fetched : ℕ → List (List ℕ) → ℕ → PrefetchState → PrefetchState
store_fetched offset chunks total s = record s {
  chunks = chunks;
  chunks_len = total;
  chunks_front_offset = 0;
  buf_start = offset;
}

unfoldable pub try_serve_forward : ℕ → ℕ → PrefetchState → PrefetchState × Option (List ℕ)
try_serve_forward offset size s =
    let buf_end = add64 s.buf_start s.chunks_len in
    let logical_off = offset - s.buf_start in
    let to_read = min size (s.chunks_len - logical_off) in
    let served = read_chunk_range s.chunks s.chunks_front_offset logical_off to_read in
    if s.chunks_len == 0
    then (s, none)
    else if ltb offset s.buf_start || leb buf_end offset
    then (s, none)
    else if s.forward_only && ltb 0 to_read
    then (drain_to_seek (logical_off + to_read) s, some served)
    else (s, some served)

unfoldable pub try_serve_seek : ℕ → ℕ → PrefetchState → Option (List ℕ)
try_serve_seek offset size s =
    let seek_end = add64 s.seek_start (length s.seek_data) in
    let local_off = offset - s.seek_start in
    let to_read = min size (length s.seek_data - local_off) in
    if s.forward_only || is_empty s.seek_data
    then none
    else if leb s.seek_start offset && ltb offset seek_end
    then some (slice local_off to_read s.seek_data)
    else none

-- The first step of `prepare_fetch`.
unfoldable pub drain_consumed : ℕ → PrefetchState → PrefetchState
drain_consumed offset s =
    let consumed = if leb s.buf_start offset then s.chunks_len else 0 in
    if ltb 0 s.chunks_len then drain_to_seek consumed s else s

-- How the read lies to the buffer before the drain.
pub data Access : Type 0 where
  first next far : Access

unfoldable pub classify : ℕ → PrefetchState → Access
classify offset s =
    let old_buf_end = add64 s.buf_start s.chunks_len in
    if s.chunks_len == 0 && s.buf_start == 0
    then first
    else if leb old_buf_end offset && leb offset (add64 old_buf_end forward_skip)
    then next
    else far

unfoldable pub adjust_window : Access → ℕ → ℕ
adjust_window first window = window
adjust_window next window = min (mul64 window 2) max_window
adjust_window far window = initial_window

-- The strategy, and the stream that is left; `s` is the state behind the drain.
unfoldable pub choose_strategy : Access → ℕ → PrefetchState → FetchStrategy × Option Stream
choose_strategy far offset s = (range_download, none)
choose_strategy first offset s =
    if offset == s.buf_start
    then (if is_none s.stream && offset == 0 then start_stream else continue_stream, s.stream)
    else (start_stream, none)
choose_strategy next offset s =
    if offset == s.buf_start then (continue_stream, s.stream) else (start_stream, none)

abbrev pub planned_size : FetchStrategy → ℕ → ℕ → ℕ
planned_size start_stream needed window = max needed window
planned_size continue_stream needed window = max needed window
planned_size range_download needed window = needed

unfoldable pub prepare_fetch : ℕ → ℕ → PrefetchState → PrefetchState × FetchPlan
prepare_fetch offset size s =
    let access = classify offset s in
    let drained = drain_consumed offset s in
    let window = adjust_window access drained.window_size in
    let chosen = choose_strategy access offset drained in
    let left = sub64 s.file_size offset in
    let needed = min size left in
    (
      record drained { window_size = window; stream = chosen.1 },
      record { strategy = chosen.0; fetch_size = min (planned_size chosen.0 needed window) left },
    )
