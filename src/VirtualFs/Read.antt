-- ===== src/VirtualFs/Read.antt =====
-- src/virtual_fs/mod.rs, `fetch_data` and `read` of a remote file. What opening a download stream
-- gives (`xet_sessions`, over a service) is the parameter `open_stream`, by the number of the call,
-- the offset and the end that is asked for; a call of `next` that times out is a failure of the
-- stream. A result carries the state and the number of the next open.
pub mod Streams
pub mod Fetch
pub mod Loop
pub mod Whole
pub mod Live
mod Tests
use hf_mount_encrypted.Base.{
  ℕ, zero, suc, ◌+◌, ◌-◌, Bool, true, false, ◌&&◌, not, Option, none, some, List, [], ◌∷◌, ◌++◌,
  length, min, ltb, leb, ◌==◌, if◌then◌else◌,
}
use hf_mount_encrypted.Base.Word.{add64}
use hf_mount_encrypted.Base.Results.{Result, ok, err}
use hf_mount_encrypted.Prefetch.{
  PrefetchState, FetchPlan, FetchStrategy, start_stream, continue_stream, range_download, is_stream,
  Event, chunk, failure, Stream, prepare_fetch, store_fetched, try_serve_forward, try_serve_seek,
}

abbrev pub eio : ℕ
eio = 5

abbrev pub max_attempts : ℕ
max_attempts = 3

-- What the inner loop of `fetch_data` has at its end; `left` is the stream behind it.
pub record Drawn : Type 0 where
  pub chunks : List (List ℕ)
  pub total : ℕ
  pub failed : Bool
  pub stream_eof : Bool
  pub left : Stream

-- The inner loop: chunks until `fetch_size` bytes are there, the stream ends or it fails.
unfoldable pub draw : ℕ → ℕ → Stream → Drawn
draw fetch_size total [] = record {
  chunks = [];
  total = total;
  failed = false;
  stream_eof = ltb total fetch_size;
  left = [];
}
draw fetch_size total (failure ∷ st) =
    let short = ltb total fetch_size in
    record {
      chunks = [];
      total = total;
      failed = short;
      stream_eof = false;
      left = if short then st else failure ∷ st;
    }
draw fetch_size total (chunk c ∷ st) =
    let later = draw fetch_size (add64 total (length c)) st in
    if ltb total fetch_size then record later { chunks = c ∷ later.chunks } else record {
      chunks = [];
      total = total;
      failed = false;
      stream_eof = false;
      left = chunk c ∷ st;
    }

-- What an attempt does with its stream when the loop is over.
unfoldable pub keep_stream : FetchStrategy → Drawn → PrefetchState → PrefetchState
keep_stream strategy drawn s =
    if drawn.stream_eof && ltb 0 drawn.total
    then s
    else if is_stream strategy && not drawn.failed
    then record s { stream = some drawn.left }
    else s

unfoldable pub draw_attempt :
    FetchPlan → Stream → PrefetchState → PrefetchState × Option (List (List ℕ) × ℕ)
draw_attempt plan stream s =
    let drawn = draw plan.fetch_size 0 stream in
    (
      keep_stream plan.strategy drawn s,
      if ltb 0 drawn.total then some (drawn.chunks, drawn.total) else none,
    )

-- The end of the range that is asked for.
unfoldable pub range_end : ℕ → FetchPlan → Option ℕ
range_end cursor plan =
    if is_stream plan.strategy then none else some (add64 cursor plan.fetch_size)

module _ (open_stream : ℕ → ℕ → Option ℕ → Option Stream) where
  abbrev pub Fetched : Type 0
  Fetched = PrefetchState × ℕ × Result ℕ (List (List ℕ) × ℕ)

  -- The attempts that open a stream of their own.
  unfoldable pub fetch_again : ℕ → ℕ → ℕ → FetchPlan → PrefetchState → Fetched
  fetch_again zero tick cursor plan s = (s, tick, err eio)
  fetch_again (suc attempts) tick cursor plan s =
      elim (open_stream tick cursor (range_end cursor plan)) [
        | none ↦ fetch_again attempts (suc tick) cursor plan s
        | some stream ↦
            let tried = draw_attempt plan stream s in
            elim tried.1 [
              | some got ↦ (tried.0, suc tick, ok got)
              | none ↦ fetch_again attempts (suc tick) cursor plan tried.0
            ]
      ]

  -- The first attempt reads the stream of the state, where there is one and the plan goes on with it.
  unfoldable pub fetch_first : Option Stream → ℕ → ℕ → FetchPlan → PrefetchState → Fetched
  fetch_first none tick cursor plan s = fetch_again max_attempts tick cursor plan s
  fetch_first (some stream) tick cursor plan s =
      let tried = draw_attempt plan stream s in
      elim tried.1 [
        | some got ↦ (tried.0, tick, ok got)
        | none ↦ fetch_again (max_attempts - 1) tick cursor plan tried.0
      ]

  unfoldable pub fetch_data : ℕ → ℕ → FetchPlan → PrefetchState → Fetched
  fetch_data tick cursor plan s =
      if is_stream plan.strategy
      then fetch_first s.stream tick cursor plan (record s { stream = none })
      else fetch_first none tick cursor plan s

  -- One turn of the assembly loop: the bytes that it adds.
  unfoldable pub fetch_more : ℕ → ℕ → ℕ → PrefetchState → PrefetchState × ℕ × Result ℕ (List ℕ)
  fetch_more tick cursor remaining s =
      let planned = prepare_fetch cursor remaining s in
      let fetched = fetch_data tick cursor planned.1 planned.0 in
      elim fetched.2 [
        | err e ↦ (fetched.0, fetched.1, err e)
        | ok got ↦
            let served =
              try_serve_forward cursor remaining (store_fetched cursor got.0 got.1 fetched.0) in
            (served.0, fetched.1, ok (elim served.1 [ none ↦ [] | some bytes ↦ bytes ]))
      ]

  -- The assembly loop on fuel; `none` stands for a loop that goes on.
  unfoldable pub read_loop :
      ℕ → ℕ → ℕ → ℕ → List ℕ → PrefetchState → PrefetchState × ℕ × Option (Result ℕ (List ℕ × Bool))
  read_loop zero tick to_read cursor response s = (
    s,
    tick,
    if ltb (length response) to_read then none else some (ok (response, cursor == s.file_size)),
  )
  read_loop (suc fuel) tick to_read cursor response s =
      let more = fetch_more tick cursor (to_read - length response) s in
      if ltb (length response) to_read
      then elim more.2 [
        | err e ↦ (more.0, more.1, some (err e))
        | ok bytes ↦
            read_loop fuel more.1 to_read (add64 cursor (length bytes)) (response ++ bytes) more.0
      ]
      else (s, tick, some (ok (response, cursor == s.file_size)))

  -- The loop behind the bytes that a buffer gave, or their answer at once.
  unfoldable pub read_rest_of :
      ℕ → ℕ → ℕ → List ℕ → PrefetchState → PrefetchState × ℕ × Option (Result ℕ (List ℕ × Bool))
  read_rest_of tick offset to_read found s =
      if length found == to_read
      then (s, tick, some (ok (found, leb s.file_size (add64 offset (length found)))))
      else read_loop to_read tick to_read (add64 offset (length found)) found s

  -- `read` of a remote file.
  unfoldable pub read :
      ℕ → ℕ → ℕ → PrefetchState → PrefetchState × ℕ × Option (Result ℕ (List ℕ × Bool))
  read tick offset size s =
      let to_read = min size (s.file_size - offset) in
      let forward = try_serve_forward offset size s in
      if leb s.file_size offset then (s, tick, some (ok ([], true))) else elim forward.1 [
        | some found ↦ read_rest_of tick offset to_read found forward.0
        | none ↦ elim (try_serve_seek offset size s) [
          | some found ↦ read_rest_of tick offset to_read found s
          | none ↦ read_loop to_read tick to_read offset [] s
        ]
      ]
