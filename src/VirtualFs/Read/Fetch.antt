-- ===== src/VirtualFs/Read/Fetch.antt =====
-- `fetch_data` gets bytes of the file, or fails and leaves no stream that could give others.
use hf_mount_encrypted.Base.{
  ℕ, zero, suc, ◌+◌, ◌-◌, ◌≤◌, ◌<◌, ◌^◌, ◌≡◌, refl, ap, ◌∙◌, true, false, ◌&&◌, not, Option, none,
  some, List, [], length, slice, ltb, arith, Bool-cases, Option-cases, inl, inr, subst,
}
use hf_mount_encrypted.Base.Results.{Result, ok, err}
use hf_mount_encrypted.Prefetch.{PrefetchState, FetchPlan, FetchStrategy, is_stream, Stream}
use hf_mount_encrypted.Prefetch.Chunks.{concat}
use hf_mount_encrypted.VirtualFs.Read.{
  Drawn, draw, keep_stream, draw_attempt, range_end, fetch_again, fetch_first, fetch_data,
  max_attempts, eio,
}
use hf_mount_encrypted.VirtualFs.Read.Streams.{Gives, draw-DrawnTrue, draw-left}

-- A stream that has nothing more, or none.
abbrev pub Spent : Option Stream → Type 0
Spent none = Unit
Spent (some st) = st ≡ []

module _ (file : List ℕ) where
  abbrev pub StreamAt : ℕ → Option Stream → Type 0
  StreamAt at none = Unit
  StreamAt at (some st) = Gives file at st

  pub Spent-StreamAt : (at : ℕ) (o : Option Stream) → Spent o → StreamAt at o
  Spent-StreamAt at none h = tt
  Spent-StreamAt at (some st) h = rw h tt

  -- Bytes of the file from `at` on, at least one, and the stream behind them.
  pub record Got (at : ℕ) (got : List (List ℕ) × ℕ) (u : PrefetchState) : Type 0 where
    pub some_got : 0 < got.1
    pub got_within : at + got.1 ≤ length file
    pub got_held : concat got.0 ≡ slice at got.1 file
    pub behind : StreamAt (at + got.1) u.stream

  abbrev pub Tried : ℕ → Option (List (List ℕ) × ℕ) → PrefetchState → Type 0
  Tried at none u = Spent u.stream
  Tried at (some got) u = Got at got u

  abbrev pub Answered : ℕ → Result ℕ (List (List ℕ) × ℕ) → PrefetchState → Type 0
  Answered at (err e) u = (e ≡ eio) × Spent u.stream
  Answered at (ok got) u = Got at got u

  -- Only the stream is another.
  abbrev pub SameBuffers : PrefetchState → PrefetchState → Type 0
  SameBuffers s u = u ≡ record s { stream = u.stream }

  same_trans : (s t u : PrefetchState) → SameBuffers s t → SameBuffers t u → SameBuffers s u
  same_trans s t u h k = k ∙ ap (λ (x : PrefetchState). record x { stream = u.stream }) h

  -- What an attempt, or all of them, may do to a state.
  pub record Right (at : ℕ) (s u : PrefetchState) (r : Result ℕ (List (List ℕ) × ℕ)) : Type 0 where
    pub answered : Answered at r u
    pub same : SameBuffers s u

  keep_stream-same :
      (strategy : FetchStrategy) (d : Drawn) (s : PrefetchState)
      → SameBuffers s (keep_stream strategy d s)
  unfolding keep_stream
  keep_stream-same strategy d s = elim (Bool-cases (d.stream_eof && ltb 0 d.total)) [
    | inl h ↦ rw h refl
    | inr h ↦ elim (Bool-cases (is_stream strategy && not d.failed)) [
      | inl k ↦ rw (h, k) refl
      | inr k ↦ rw (h, k) refl
    ]
  ]

  keep_stream-stream :
      (strategy : FetchStrategy) (d : Drawn) (s : PrefetchState) (P : Option Stream → Type 0)
      → P s.stream
      → (d.failed ≡ false → P (some d.left))
      → P (keep_stream strategy d s).stream
  unfolding keep_stream
  keep_stream-stream strategy d s P old new = elim (Bool-cases (d.stream_eof && ltb 0 d.total)) [
    | inl h ↦ rw h old
    | inr h ↦ elim (Bool-cases (is_stream strategy && not d.failed)) [
      | inl k ↦ rw (h, k) (new (ground (arith, k)))
      | inr k ↦ rw (h, k) old
    ]
  ]

  module _ (room : length file < 2 ^ 63) (at : ℕ) (within : at ≤ length file) (plan : FetchPlan)
      (wanted : 0 < plan.fetch_size) where
    draw_attempt-Tried :
        (st : Stream) (s : PrefetchState)
        → Gives file at st
        → Spent s.stream
        → Tried at (draw_attempt plan st s).1 (draw_attempt plan st s).0
    unfolding draw_attempt
    draw_attempt-Tried st s g spent =
        let d = draw plan.fetch_size 0 st in
        let true_of = draw-DrawnTrue file plan.fetch_size at 0 st g within room (omega arith) in
        let same : d.total - 0 ≡ d.total = omega arith in
        elim (Bool-cases (ltb 0 d.total)) [
          | inl h ↦ rw h (record {
            some_got = ground (arith, h);
            got_within = omega (arith, true_of.within);
            got_held = true_of.held ∙ ap (λ (n : ℕ). slice at n file) same;
            behind =
                keep_stream-stream plan.strategy d s (StreamAt (at + d.total))
                  (Spent-StreamAt (at + d.total) s.stream spent)
                  (λ f. subst (λ (n : ℕ). Gives file (at + n) d.left) same (true_of.goes_on f));
          })
          | inr h ↦ rw h (
              keep_stream-stream plan.strategy d s Spent spent
                (draw-left file plan.fetch_size at st g room wanted (ground (arith, h))))
        ]

    draw_attempt-same : (st : Stream) (s : PrefetchState) → SameBuffers s (draw_attempt plan st s).0
    unfolding draw_attempt
    draw_attempt-same st s = keep_stream-same plan.strategy (draw plan.fetch_size 0 st) s

    module _ (open_stream : ℕ → ℕ → Option ℕ → Option Stream)
        (honest : (tick from : ℕ) (end : Option ℕ)
          → StreamAt from (open_stream tick from end)) where
      fetch_again-Right :
          (attempts tick : ℕ) (s : PrefetchState)
          → Spent s.stream
          → Right at s
              (fetch_again open_stream attempts tick at plan s).0
              (fetch_again open_stream attempts tick at plan s).2
      unfolding fetch_again
      fetch_again-Right zero tick s spent = record { answered = (refl, spent); same = refl }
      fetch_again-Right (suc attempts) tick s spent =
          elim (Option-cases (open_stream tick at (range_end at plan))) [
            | inl e ↦ rw (e, fetch_again) (fetch_again-Right attempts (suc tick) s spent)
            | inr (st, e) ↦
                let g : Gives file at st =
                  subst (StreamAt at) e (honest tick at (range_end at plan)) in
                let tried = draw_attempt plan st s in
                let right = draw_attempt-Tried st s g spent in
                let same = draw_attempt-same st s in
                elim (Option-cases tried.1) [
                  | inl n ↦
                      let rest =
                        fetch_again-Right attempts (suc tick) tried.0
                          (subst (λ o. Tried at o tried.0) n right) in
                      rw (e, fetch_again)
                        (rw n (record {
                          answered = rest.answered;
                          same = same_trans s tried.0 _ same rest.same;
                        }))
                  | inr (got, y) ↦
                      rw (e, fetch_again)
                        (rw y (record {
                          answered = subst (λ o. Tried at o tried.0) y right;
                          same = same;
                        }))
                ]
          ]

      fetch_first-Right :
          (o : Option Stream) (tick : ℕ) (s : PrefetchState)
          → StreamAt at o
          → Spent s.stream
          → Right at s
              (fetch_first open_stream o tick at plan s).0
              (fetch_first open_stream o tick at plan s).2
      unfolding fetch_first
      fetch_first-Right none tick s g spent = fetch_again-Right max_attempts tick s spent
      fetch_first-Right (some st) tick s g spent =
          let tried = draw_attempt plan st s in
          let right = draw_attempt-Tried st s g spent in
          let same = draw_attempt-same st s in
          elim (Option-cases tried.1) [
            | inl n ↦
                let rest =
                  fetch_again-Right (max_attempts - 1) tick tried.0
                    (subst (λ o. Tried at o tried.0) n right) in
                rw (n, fetch_first)
                  (record {
                    answered = rest.answered;
                    same = same_trans s tried.0 _ same rest.same;
                  })
            | inr (got, y) ↦
                rw (y, fetch_first)
                  (record { answered = subst (λ o. Tried at o tried.0) y right; same = same })
          ]

      -- What `fetch_data` gives: at least one byte of the file from the cursor on, or an error, and
      -- no stream that stands elsewhere.
      pub fetch_data-Right :
          (tick : ℕ) (s : PrefetchState)
          → (is_stream plan.strategy ≡ true → StreamAt at s.stream)
          → (is_stream plan.strategy ≡ false → Spent s.stream)
          → Right at s
              (fetch_data open_stream tick at plan s).0
              (fetch_data open_stream tick at plan s).2
      unfolding fetch_data
      fetch_data-Right tick s streaming ranged = elim (Bool-cases (is_stream plan.strategy)) [
        | inr h ↦ rw h (fetch_first-Right none tick s tt (ranged h))
        | inl h ↦
            let r = fetch_first-Right s.stream tick (record s { stream = none }) (streaming h) tt in
            rw h (record { answered = r.answered; same = r.same })
      ]
