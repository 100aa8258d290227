-- ===== src/VirtualFs/Read/Loop.antt =====
-- The assembly loop of `read`: every turn adds bytes of the file.
use hf_mount_encrypted.Base.{
  ℕ, ◌+◌, ◌-◌, ◌≤◌, ◌<◌, ◌≡◌, refl, sym, ap, ◌∙◌, Bool, true, false, ◌&&◌, Option, none, some, List,
  [], length, slice, ltb, leb, ◌==◌, min, if◌then◌else◌, arith, Bool-cases, inl, inr, subst,
  length-slice,
}
use hf_mount_encrypted.Base.Word.{add64}
use hf_mount_encrypted.Base.Results.{Result, ok, err, Result-cases}
use hf_mount_encrypted.Prefetch.{
  PrefetchState, is_stream, Stream, Access, first, next, far, classify, choose_strategy,
  prepare_fetch, drain_consumed, store_fetched, try_serve_forward,
}
use hf_mount_encrypted.Prefetch.Chunks.{contents_zero}
use hf_mount_encrypted.Prefetch.Mirror.{Mirrors, store_fetched-Mirrors}
use hf_mount_encrypted.Prefetch.Plan.{
  drain_consumed-Kept, prepare_fetch-Mirrors, prepare_fetch-fetch_size,
}
use hf_mount_encrypted.Prefetch.Serve.{
  try_serve_forward-answer, try_serve_forward-Mirrors, try_serve_forward-Kept,
}
use hf_mount_encrypted.VirtualFs.Read.{fetch_data, fetch_more, eio}
use hf_mount_encrypted.VirtualFs.Read.Fetch.{
  StreamAt, Spent, Got, SameBuffers, fetch_data-Right, Spent-StreamAt, Answered,
}

choose_strategy-stream :
    (P : Option Stream → Type 0) (a : Access) (offset : ℕ) (d : PrefetchState)
    → P none
    → (a ≡ first → (offset == d.buf_start) ≡ true → P d.stream)
    → (a ≡ next → (offset == d.buf_start) ≡ true → P d.stream)
    → P (choose_strategy a offset d).1
unfolding choose_strategy
choose_strategy-stream P far offset d z f n = z
choose_strategy-stream P first offset d z f n = elim (Bool-cases (offset == d.buf_start)) [
  | inl h ↦ rw h (f refl h)
  | inr h ↦ rw h z
]
choose_strategy-stream P next offset d z f n = elim (Bool-cases (offset == d.buf_start)) [
  | inl h ↦ rw h (n refl h)
  | inr h ↦ rw h z
]

choose_strategy-Spent :
    (a : Access) (offset : ℕ) (d : PrefetchState)
    → is_stream (choose_strategy a offset d).0 ≡ false
    → Spent (choose_strategy a offset d).1
unfolding choose_strategy is_stream
choose_strategy-Spent far offset d h = tt
choose_strategy-Spent first offset d h = absurd (ground (arith, h))
choose_strategy-Spent next offset d h = absurd (ground (arith, h))

classify-first :
    (offset : ℕ) (s : PrefetchState)
    → classify offset s ≡ first
    → (s.chunks_len ≡ 0) × (s.buf_start ≡ 0)
unfolding classify
classify-first offset s h = (ground (arith, h), ground (arith, h))

classify-next :
    (offset : ℕ) (s : PrefetchState)
    → classify offset s ≡ next
    → add64 s.buf_start s.chunks_len ≤ offset
unfolding classify
classify-next offset s h = ground (arith, h)

module _ (file : List ℕ) where
  -- The state of a handle that reads the file right: the buffer is true to it, and the stream goes on
  -- where the buffer ends.
  pub record Readable (s : PrefetchState) : Type 0 where
    pub mirrors : Mirrors file s
    pub stream_at : StreamAt file (s.buf_start + s.chunks_len) s.stream

  module _ (cursor remaining : ℕ) (s : PrefetchState) (r : Readable s) where
    prepared-StreamAt : StreamAt file cursor (prepare_fetch cursor remaining s).0.stream
    unfolding prepare_fetch
    prepared-StreamAt =
        let d = drain_consumed cursor s in
        let k = drain_consumed-Kept file cursor s r.mirrors in
        let sum : add64 s.buf_start s.chunks_len ≡ s.buf_start + s.chunks_len =
          omega (arith, r.mirrors.within, r.mirrors.room) in
        let held : StreamAt file (s.buf_start + s.chunks_len) d.stream =
          rw k.stream_kept r.stream_at in
        let to_cursor : (s.buf_start + s.chunks_len ≡ cursor) → StreamAt file cursor d.stream =
          λ e. subst (λ (p : ℕ). StreamAt file p d.stream) e held in
        choose_strategy-stream (StreamAt file cursor) (classify cursor s) cursor d tt
          (λ c at. to_cursor (
            ground (
              arith,
              (classify-first cursor s c).0,
              (classify-first cursor s c).1,
              k.end_kept,
              at,
            )))
          (λ c at. to_cursor (ground (arith, k.end_kept, classify-next cursor s c, sum, at)))

    prepared-Spent :
        is_stream (prepare_fetch cursor remaining s).1.strategy ≡ false
        → Spent (prepare_fetch cursor remaining s).0.stream
    unfolding prepare_fetch
    prepared-Spent h = choose_strategy-Spent (classify cursor s) cursor (drain_consumed cursor s) h

  module _ (open_stream : ℕ → ℕ → Option ℕ → Option Stream)
      (honest : (tick from : ℕ) (end : Option ℕ)
        → StreamAt file from (open_stream tick from end)) where
    -- What a turn of the loop adds at the cursor: at least a byte, of the file.
    pub record Turn (cursor remaining : ℕ) (u : PrefetchState) (bytes : List ℕ) : Type 0 where
      pub readable : Readable u
      pub grows : 0 < length bytes
      pub fits : length bytes ≤ remaining
      pub right : bytes ≡ slice cursor (length bytes) file

    abbrev pub TurnResult : ℕ → ℕ → PrefetchState → Result ℕ (List ℕ) → Type 0
    TurnResult cursor remaining u (err e) = (e ≡ eio) × Readable u
    TurnResult cursor remaining u (ok bytes) = Turn cursor remaining u bytes

    -- Behind a fetch that got bytes: they are stored, and the read is served from them.
    stored-Turn :
        (cursor remaining : ℕ) (s : PrefetchState) (got : List (List ℕ) × ℕ)
        → Mirrors file s
        → Got file cursor got s
        → 0 < remaining
        → Turn cursor remaining
            (try_serve_forward cursor remaining (store_fetched cursor got.0 got.1 s)).0
            (elim (try_serve_forward cursor remaining (store_fetched cursor got.0 got.1 s)).1 [
              | none ↦ []
              | some bytes ↦ bytes
            ])
    unfolding store_fetched
    stored-Turn cursor remaining s got m g wanted =
        let u = store_fetched cursor got.0 got.1 s in
        let mu =
          store_fetched-Mirrors file s cursor got.1 got.0 m g.got_within
            (contents_zero got.0 ∙ g.got_held) in
        let served = try_serve_forward-answer file cursor remaining u mu in
        let kept = try_serve_forward-Kept file cursor remaining u mu in
        let inside : (leb cursor cursor && ltb cursor (cursor + got.1)) ≡ true =
          ground (arith, g.some_got) in
        let n = min remaining (cursor + got.1 - cursor) in
        let bytes : (try_serve_forward cursor remaining u).1 ≡ some (slice cursor n file) =
          served ∙ ap (λ (b : Bool). if b then some (slice cursor n file) else none) inside in
        let len : length (slice cursor n file) ≡ n =
          length-slice cursor n file (omega (arith, g.got_within)) in
        rw bytes (record {
          readable = record {
            mirrors = try_serve_forward-Mirrors file cursor remaining u mu;
            stream_at = rw (kept.end_kept, kept.stream_kept) g.behind;
          };
          grows = omega (arith, len, wanted, g.some_got);
          fits = omega (arith, len);
          right = ap (λ (k : ℕ). slice cursor k file) (sym len);
        })

    SameBuffers-Mirrors :
        (s u : PrefetchState) → SameBuffers file s u → Mirrors file s → Mirrors file u
    SameBuffers-Mirrors s u same m = subst (Mirrors file) (sym same) (record {
      sized = m.sized;
      room = m.room;
      within = m.within;
      held = m.held;
      front = m.front;
    })

    pub fetch_more-TurnResult :
        (tick cursor remaining : ℕ) (s : PrefetchState)
        → Readable s
        → 0 < remaining
        → cursor + remaining ≤ length file
        → TurnResult cursor remaining
            (fetch_more open_stream tick cursor remaining s).0
            (fetch_more open_stream tick cursor remaining s).2
    unfolding fetch_more
    fetch_more-TurnResult tick cursor remaining s r wanted within =
        let p = prepare_fetch cursor remaining s in
        let size =
          prepare_fetch-fetch_size file cursor remaining s r.mirrors
            (omega (arith, wanted, within)) in
        let f = fetch_data open_stream tick cursor p.1 p.0 in
        let right =
          fetch_data-Right file r.mirrors.room cursor (omega (arith, within)) p.1
            (omega (arith, size.0, wanted, within)) open_stream honest tick p.0
            (λ h. prepared-StreamAt cursor remaining s r) (prepared-Spent cursor remaining s r) in
        let mirrored =
          SameBuffers-Mirrors p.0 f.0 right.same
            (prepare_fetch-Mirrors file cursor remaining s r.mirrors) in
        elim (Result-cases f.2) [
          | inl (got, e) ↦
              let g : Got file cursor got f.0 =
                subst (λ a. Answered file cursor a f.0) e right.answered in
              rw (e, fetch_more) (stored-Turn cursor remaining f.0 got mirrored g wanted)
          | inr (code, e) ↦
              let spent : (code ≡ eio) × Spent f.0.stream =
                subst (λ a. Answered file cursor a f.0) e right.answered in
              rw (e, fetch_more)
                (
                  spent.0,
                  record {
                    mirrors = mirrored;
                    stream_at =
                        Spent-StreamAt file (f.0.buf_start + f.0.chunks_len) f.0.stream spent.1;
                  },
                )
        ]
