-- ===== src/Prefetch/Plan.antt =====
-- `prepare_fetch`: what it plans, and the buffers that it leaves.
use hf_mount_encrypted.Base.{
  ℕ, ◌+◌, ◌-◌, ◌≤◌, ◌<◌, ◌≡◌, refl, true, List, length, inl, inr, ◌⊎◌, ap, none, ◌==◌, ◌&&◌, min,
  max, leb, ltb, if◌then◌else◌, arith, Bool-cases,
}
use hf_mount_encrypted.Base.Word.{add64, sub64}
use hf_mount_encrypted.Prefetch.{
  PrefetchState, FetchPlan, forward_skip, FetchStrategy, start_stream, continue_stream,
  range_download, is_stream, Access, first, next, far, drain_consumed, classify, adjust_window,
  choose_strategy, prepare_fetch, planned_size, initial_window, max_window,
}
use hf_mount_encrypted.Prefetch.Mirror.{Mirrors}
use hf_mount_encrypted.Prefetch.Drain.{drain_to_seek-Mirrors, Kept, drain_to_seek-Kept}

drain_consumed-Mirrors :
    (file : List ℕ) (offset : ℕ) (s : PrefetchState)
    → Mirrors file s
    → Mirrors file (drain_consumed offset s)
unfolding drain_consumed
drain_consumed-Mirrors file offset s m = elim (Bool-cases (ltb 0 s.chunks_len)) [
  | inl h ↦
      rw h (drain_to_seek-Mirrors file (if leb s.buf_start offset then s.chunks_len else 0) s m)
  | inr h ↦ rw h m
]

-- The plan of a miss leaves the forward buffer true to the file.
pub prepare_fetch-Mirrors :
    (file : List ℕ) (offset size : ℕ) (s : PrefetchState)
    → Mirrors file s
    → Mirrors file (prepare_fetch offset size s).0
unfolding prepare_fetch
prepare_fetch-Mirrors file offset size s m =
    let d = drain_consumed-Mirrors file offset s m in
    record { sized = d.sized; room = d.room; within = d.within; held = d.held; front = d.front }

unfoldable pub WindowIn : ℕ → Type 0
WindowIn w = (initial_window ≤ w) × (w ≤ max_window)

adjust_window-WindowIn : (a : Access) (w : ℕ) → WindowIn w → WindowIn (adjust_window a w)
unfolding WindowIn adjust_window
adjust_window-WindowIn first w h = h
adjust_window-WindowIn next w h = (omega (arith, h.0, h.1), omega arith)
adjust_window-WindowIn far w h = (omega arith, omega arith)

planned_window :
    (st : FetchStrategy) (needed window : ℕ)
    → is_stream st ≡ true
    → planned_size st needed window ≡ max needed window
unfolding is_stream
planned_window start_stream needed window h = refl
planned_window continue_stream needed window h = refl
planned_window range_download needed window h = cc

planned_needed : (st : FetchStrategy) (needed window : ℕ) → needed ≤ planned_size st needed window
planned_needed start_stream needed window = omega arith
planned_needed continue_stream needed window = omega arith
planned_needed range_download needed window = omega arith

pub drain_consumed-Kept :
    (file : List ℕ) (offset : ℕ) (s : PrefetchState)
    → Mirrors file s
    → Kept s (drain_consumed offset s)
unfolding drain_consumed
drain_consumed-Kept file offset s m = elim (Bool-cases (ltb 0 s.chunks_len)) [
  | inl h ↦ rw h (drain_to_seek-Kept file (if leb s.buf_start offset then s.chunks_len else 0) s m)
  | inr h ↦
      rw h
        (record { file_size_kept = refl; window_kept = refl; stream_kept = refl; end_kept = refl })
]

-- The window stays between the first one and the largest.
pub prepare_fetch-WindowIn :
    (file : List ℕ) (offset size : ℕ) (s : PrefetchState)
    → Mirrors file s
    → WindowIn s.window_size
    → WindowIn (prepare_fetch offset size s).0.window_size
unfolding prepare_fetch
prepare_fetch-WindowIn file offset size s m h =
    let k = drain_consumed-Kept file offset s m in
    adjust_window-WindowIn (classify offset s) (drain_consumed offset s).window_size
      (rw k.window_kept h)

-- Nothing was read yet, or the offset is at the end of the buffer or a forward skip behind it.
abbrev pub Near : ℕ → PrefetchState → Type 0
Near offset s =
    ((s.chunks_len ≡ 0) × (s.buf_start ≡ 0))
    ⊎ ((s.buf_start + s.chunks_len ≤ offset) × (offset ≤ s.buf_start + s.chunks_len + forward_skip))

-- The plan of a near offset streams, and fetches the window where that is more than what is needed.
abbrev pub Streams : ℕ → ℕ → PrefetchState × FetchPlan → Type 0
Streams needed left p =
    (is_stream p.1.strategy ≡ true) × (p.1.fetch_size ≡ min (max needed p.0.window_size) left)

-- The plan of a far offset fetches one range of what is needed, and gives the kept stream up.
abbrev pub Ranges : ℕ → PrefetchState × FetchPlan → Type 0
Ranges needed p = (p.1.strategy ≡ range_download) × (p.1.fetch_size ≡ needed) × (p.0.stream ≡ none)

choose_strategy-streams :
    (a : Access) (offset : ℕ) (d : PrefetchState)
    → ¬ (a ≡ far)
    → is_stream (choose_strategy a offset d).0 ≡ true
unfolding choose_strategy is_stream
choose_strategy-streams far offset d h = absurd (h refl)
choose_strategy-streams first offset d h = ground arith
choose_strategy-streams next offset d h = ground arith

-- An offset is far exactly if it is not near.
classify_cases :
    (file : List ℕ) (offset : ℕ) (s : PrefetchState)
    → Mirrors file s
    → (Near offset s × ¬ (classify offset s ≡ far)) ⊎ (¬ Near offset s × (classify offset s ≡ far))
unfolding classify
classify_cases file offset s m =
    let old_end = add64 s.buf_start s.chunks_len in
    let e : old_end ≡ s.buf_start + s.chunks_len = omega (arith, m.within, m.room) in
    let f : add64 old_end forward_skip ≡ s.buf_start + s.chunks_len + forward_skip =
      omega (arith, m.within, m.room) in
    elim (Bool-cases (s.chunks_len == 0 && s.buf_start == 0)) [
      | inl h ↦ inl (inl (ground (arith, h), ground (arith, h)), rw h (λ e. cc))
      | inr h ↦ elim (Bool-cases (leb old_end offset && leb offset (add64 old_end forward_skip))) [
        | inl k ↦ inl (inr (ground (arith, k, e), ground (arith, k, f)), rw h (rw k (λ e. cc)))
        | inr k ↦ inr (
          λ near. elim near [
            | inl none_read ↦ ground (arith, h, none_read)
            | inr behind ↦ ground (arith, k, e, f, behind)
          ],
          rw h (rw k refl),
        )
      ]
    ]

pub prepare_fetch-fetch_size :
    (file : List ℕ) (offset size : ℕ) (s : PrefetchState)
    → Mirrors file s
    → offset < length file
    → (min size (length file - offset) ≤ (prepare_fetch offset size s).1.fetch_size)
      × ((prepare_fetch offset size s).1.fetch_size ≤ length file - offset)
      × ((Near offset s
            × Streams
                (min size (length file - offset))
                (length file - offset)
                (prepare_fetch offset size s))
          ⊎ (¬ Near offset s
              × Ranges (min size (length file - offset)) (prepare_fetch offset size s)))
unfolding prepare_fetch
prepare_fetch-fetch_size file offset size s m inside =
    let left = sub64 s.file_size offset in
    let e : left ≡ length file - offset = omega (arith, inside, m.room, m.sized) in
    let needed = min size left in
    let d = drain_consumed offset s in
    let a = classify offset s in
    let st = (choose_strategy a offset d).0 in
    let window = adjust_window a d.window_size in
    let p = planned_needed st needed window in
    (
      omega (arith, p, e),
      omega (arith, e),
      elim (classify_cases file offset s m) [
        | inl (near, h) ↦
            let streams = choose_strategy-streams a offset d h in
            inl (
              near,
              (streams, rw (← e) (ap (λ n. min n left) (planned_window st needed window streams))),
            )
        | inr (not_near, h) ↦
            inr (not_near, rw h (unfold choose_strategy in (refl, omega (arith, e), refl)))
      ],
    )
