-- ===== src/VirtualFs/Read/Tests.antt =====
-- Runs of the read path over a file of six bytes, and its theorems at concrete states.
use hf_mount_encrypted.Base.{
  ℕ, ◌-◌, ◌<◌, ◌≡◌, ◌⊎◌, refl, sym, ap, ◌∙◌, true, false, Option, none, some, List, [], ◌∷◌, length,
  slice, take, drop, ltb, if◌then◌else◌, arith, Bool-cases, inl, inr, length-take, length-drop,
  take-min,
}
use hf_mount_encrypted.Base.Results.{ok, err}
use hf_mount_encrypted.Prefetch.{
  PrefetchState, new, chunk, failure, Stream, read_rest, read_from, read_chunk_range,
  copy_chunks_to_seek, trim_seek, fill_case, joins_window, fill_seek, pop_consumed, drain_to_seek,
  store_fetched, try_serve_forward, try_serve_seek, drain_consumed, classify, adjust_window,
  choose_strategy, prepare_fetch, is_stream, range_download, continue_stream,
}
use hf_mount_encrypted.Prefetch.Chunks
use hf_mount_encrypted.Prefetch.Mirror.{
  Mirrors, MirrorsBack, new-Mirrors, new-MirrorsBack, store_fetched-Mirrors,
}
use hf_mount_encrypted.Prefetch.Drain
use hf_mount_encrypted.Prefetch.Plan
use hf_mount_encrypted.Prefetch.Misplaced
use hf_mount_encrypted.VirtualFs.Read.{
  draw, keep_stream, draw_attempt, range_end, fetch_again, fetch_first, fetch_data, fetch_more,
  read_loop, read_rest_of, read, eio,
}
use hf_mount_encrypted.VirtualFs.Read.Fetch.{StreamAt}
use hf_mount_encrypted.VirtualFs.Read.Loop.{Readable}
use hf_mount_encrypted.VirtualFs.Read.Whole
use hf_mount_encrypted.VirtualFs.Read.Live
use hf_mount_encrypted.VirtualFs.Read.Live.{Begins}

abbrev six_bytes : List ℕ
six_bytes = 11 ∷ 12 ∷ 13 ∷ 14 ∷ 15 ∷ 16 ∷ []

-- How many bytes a range holds.
abbrev extent : ℕ → Option ℕ → ℕ
extent from none = length six_bytes - from
extent from (some end) = if ltb from end then end - from else length six_bytes - from

-- A service that gives a range in one chunk.
abbrev serve : ℕ → ℕ → Option ℕ → Option Stream
serve tick from end =
    if ltb from (length six_bytes)
    then some (chunk (slice from (extent from end) six_bytes) ∷ [])
    else none

six_honest : (tick from : ℕ) (end : Option ℕ) → StreamAt six_bytes from (serve tick from end)
six_honest tick from end = elim (Bool-cases (ltb from (length six_bytes))) [
  | inr h ↦ rw h tt
  | inl h ↦
      let n = extent from end in
      let inside : from < length six_bytes = ground (arith, h) in
      let len = length-take n (drop from six_bytes) in
      let rest = length-drop from six_bytes in
      rw h (
        omega (arith, inside, len, rest),
        sym (ap (λ (k : ℕ). take k (drop from six_bytes)) len ∙ take-min n (drop from six_bytes)),
        tt,
      )
]

extent_some : (from : ℕ) (end : Option ℕ) → from < length six_bytes → 0 < extent from end
extent_some from none inside = omega (arith, inside)
extent_some from (some end) inside = ground (arith, inside)

six_lively :
    (tick from : ℕ) (end : Option ℕ) → from < length six_bytes → Begins (serve tick from end)
six_lively tick from end inside =
    let n = extent from end in
    let h : ltb from (length six_bytes) ≡ true = ground (arith, inside) in
    rw h (
      slice from n six_bytes,
      [],
      refl,
      omega (
        arith,
        length-take n (drop from six_bytes),
        length-drop from six_bytes,
        extent_some from end inside,
        inside,
      ),
    )

-- The definitions that the runs compute.
code : Unit {0}
unfolding new read_rest read_from read_chunk_range copy_chunks_to_seek trim_seek fill_case
    joins_window fill_seek pop_consumed drain_to_seek store_fetched try_serve_forward try_serve_seek
    drain_consumed classify adjust_window choose_strategy prepare_fetch is_stream draw keep_stream
    draw_attempt range_end fetch_again fetch_first fetch_data fetch_more read_loop read_rest_of read
code = tt

abbrev opened : PrefetchState
opened = new [] 6 false

-- The tail first, then a byte in the middle, then the byte behind it, then the first byte of the file.
abbrev run : PrefetchState
run = (read serve 0 3 1 (read serve 0 2 1 (read serve 0 4 1 opened).0).0).0

tail_run : (read serve 0 4 1 opened).2 ≡ some (ok (15 ∷ [], false))
unfolding code
tail_run = refl

whole_run : (read serve 0 1 9 opened).2 ≡ some (ok (12 ∷ 13 ∷ 14 ∷ 15 ∷ 16 ∷ [], true))
unfolding code
whole_run = refl

past_end_run : (read serve 0 6 1 opened).2 ≡ some (ok ([], true))
unfolding code
past_end_run = refl

failing_run : (read (λ tick from end. some (failure ∷ [])) 0 0 2 opened).2 ≡ some (err eio)
unfolding code
failing_run = refl

-- A backward read that the seek window answers with bytes from elsewhere in the file.
misplaced_run : (read serve 0 0 1 run).2 ≡ some (ok (13 ∷ [], false))
unfolding code
misplaced_run = refl

opened-Readable : Readable six_bytes opened
unfolding code
opened-Readable = record { mirrors = new-Mirrors [] six_bytes false (omega arith); stream_at = tt }

opened-MirrorsBack : MirrorsBack six_bytes opened
opened-MirrorsBack = new-MirrorsBack [] six_bytes false

read-file_example :
    (((read serve 0 2 3 opened).2 ≡ some (ok (13 ∷ 14 ∷ 15 ∷ [], false)))
      ⊎ ((read serve 0 2 3 opened).2 ≡ some (err eio)))
    × Readable six_bytes (read serve 0 2 3 opened).0
read-file_example =
    Whole.read-file six_bytes serve 0 2 3 opened six_honest opened-Readable opened-MirrorsBack

-- A handle whose kept stream gives a byte and then fails.
abbrev interrupted : PrefetchState
interrupted = record opened { stream = some (chunk (11 ∷ []) ∷ failure ∷ []) }

-- A handle whose kept stream fails at once.
abbrev failed : PrefetchState
failed = record opened { stream = some (failure ∷ []) }

interrupted_run : (read serve 0 0 3 interrupted).2 ≡ some (ok (11 ∷ 12 ∷ 13 ∷ [], false))
unfolding code
interrupted_run = refl

failed-Readable : Readable six_bytes failed
unfolding code
failed-Readable = record {
  mirrors = record {
    sized = refl;
    room = omega arith;
    within = omega arith;
    held = refl;
    front = tt;
  };
  stream_at = tt;
}

failed-MirrorsBack : MirrorsBack six_bytes failed
unfolding code
failed-MirrorsBack = record { back_within = omega arith; back_held = refl }

read-completes_example : (read serve 0 0 3 failed).2 ≡ some (ok (11 ∷ 12 ∷ 13 ∷ [], false))
read-completes_example =
    Live.read-completes six_bytes serve 0 0 3 failed six_honest six_lively failed-Readable
      failed-MirrorsBack

-- A buffer of three bytes in two chunks, at offset 2.
abbrev buffered : PrefetchState
buffered = store_fetched 2 ((13 ∷ []) ∷ (14 ∷ 15 ∷ []) ∷ []) 3 opened

buffered-Mirrors : Mirrors six_bytes buffered
buffered-Mirrors =
    store_fetched-Mirrors six_bytes opened 2 3 ((13 ∷ []) ∷ (14 ∷ 15 ∷ []) ∷ [])
      opened-Readable.mirrors (omega arith) refl

read_chunk_range-slice_example :
    read_chunk_range ((11 ∷ 12 ∷ []) ∷ (13 ∷ 14 ∷ []) ∷ (15 ∷ []) ∷ []) 1 0 3 ≡ 12 ∷ 13 ∷ 14 ∷ []
read_chunk_range-slice_example =
    Chunks.read_chunk_range-slice ((11 ∷ 12 ∷ []) ∷ (13 ∷ 14 ∷ []) ∷ (15 ∷ []) ∷ []) 1 0 3

drain_to_seek-Mirrors_example : Mirrors six_bytes (drain_to_seek 2 buffered)
drain_to_seek-Mirrors_example = Drain.drain_to_seek-Mirrors six_bytes 2 buffered buffered-Mirrors

-- Before the buffer one range is planned, behind it a stream with its window.
far_run : (prepare_fetch 0 2 buffered).1 ≡ record { strategy = range_download; fetch_size = 2 }
unfolding code
far_run = refl

near_run : (prepare_fetch 5 1 buffered).1 ≡ record { strategy = continue_stream; fetch_size = 1 }
unfolding code
near_run = refl

try_serve_seek-misplaced_example :
    try_serve_seek 0 2 (drain_to_seek 2 buffered) ≡ some (13 ∷ 14 ∷ [])
unfolding code
try_serve_seek-misplaced_example =
    Misplaced.try_serve_seek-misplaced six_bytes buffered 2 buffered-Mirrors refl refl (omega arith)
      (omega arith) (omega arith) 2 (omega arith) (omega arith)
