-- ===== src/VirtualFs/Read/Live.antt =====
-- `read` comes to its bytes where a new stream gives some.
use hf_mount_encrypted.Base.{
  ℕ, suc, ◌+◌, ◌-◌, ◌≤◌, ◌<◌, ◌^◌, ◌≡◌, refl, true, Option, none, some, List, ◌∷◌, length, slice,
  ltb, leb, min, arith, Bool-cases, Option-cases, inl, inr, subst,
}
use hf_mount_encrypted.Base.Results.{Result, ok, err}
use hf_mount_encrypted.Prefetch.{PrefetchState, FetchPlan, chunk, Stream, is_stream, prepare_fetch}
use hf_mount_encrypted.Prefetch.Mirror.{MirrorsBack}
use hf_mount_encrypted.Prefetch.Plan.{prepare_fetch-fetch_size}
use hf_mount_encrypted.VirtualFs.Read.{
  draw, draw_attempt, range_end, fetch_again, fetch_first, fetch_data, fetch_more, max_attempts,
  read, eio,
}
use hf_mount_encrypted.VirtualFs.Read.Streams.{Gives, draw-some}
use hf_mount_encrypted.VirtualFs.Read.Fetch.{StreamAt}
use hf_mount_encrypted.VirtualFs.Read.Loop.{Readable}
use hf_mount_encrypted.VirtualFs.Read.Whole.{read-Finished}

-- The stream begins with a chunk that is not empty.
abbrev pub Begins : Option Stream → Type 0
Begins o = (c : List ℕ) × (st : Stream) × (o ≡ some (chunk c ∷ st)) × (0 < length c)

module _ (file : List ℕ) (open_stream : ℕ → ℕ → Option ℕ → Option Stream)
    (honest : (tick from : ℕ) (end : Option ℕ) → StreamAt file from (open_stream tick from end))
    (lively : (tick from : ℕ) (end : Option ℕ)
      → from < length file
      → Begins (open_stream tick from end))
    (room : length file < 2 ^ 63) where
  abbrev IsOk : {A : Type 0} → Result ℕ A → Type 0
  IsOk {A = A} r = (a : A) × (r ≡ ok a)

  fetch_again-IsOk :
      (attempts tick cursor : ℕ) (plan : FetchPlan) (s : PrefetchState)
      → cursor < length file
      → 0 < plan.fetch_size
      → IsOk (fetch_again open_stream (suc attempts) tick cursor plan s).2
  unfolding fetch_again draw_attempt
  fetch_again-IsOk attempts tick cursor plan s inside wanted =
      let o = lively tick cursor (range_end cursor plan) inside in
      let g : Gives file cursor (chunk o.0 ∷ o.1) =
        subst (StreamAt file cursor) o.2 (honest tick cursor (range_end cursor plan)) in
      let total : ltb 0 (draw plan.fetch_size 0 (chunk o.0 ∷ o.1)).total ≡ true =
        ground (arith, draw-some file plan.fetch_size cursor o.0 o.1 g room o.3 wanted) in
      rw (o.2, fetch_again) (rw total (_, refl))

  fetch_first-IsOk :
      (o : Option Stream) (tick cursor : ℕ) (plan : FetchPlan) (s : PrefetchState)
      → cursor < length file
      → 0 < plan.fetch_size
      → IsOk (fetch_first open_stream o tick cursor plan s).2
  unfolding fetch_first
  fetch_first-IsOk none tick cursor plan s inside wanted =
      fetch_again-IsOk (max_attempts - 1) tick cursor plan s inside wanted
  fetch_first-IsOk (some st) tick cursor plan s inside wanted =
      elim (Option-cases (draw_attempt plan st s).1) [
        | inr (got, e) ↦ rw (e, fetch_first) (got, refl)
        | inl e ↦
            rw (e, fetch_first)
              (fetch_again-IsOk (max_attempts - 2) tick cursor plan (draw_attempt plan st s).0
                inside wanted)
      ]

  fetch_data-IsOk :
      (tick cursor : ℕ) (plan : FetchPlan) (s : PrefetchState)
      → cursor < length file
      → 0 < plan.fetch_size
      → IsOk (fetch_data open_stream tick cursor plan s).2
  unfolding fetch_data
  fetch_data-IsOk tick cursor plan s inside wanted = elim (Bool-cases (is_stream plan.strategy)) [
    | inl h ↦
        rw h (fetch_first-IsOk s.stream tick cursor plan (record s { stream = none }) inside wanted)
    | inr h ↦ rw h (fetch_first-IsOk none tick cursor plan s inside wanted)
  ]

  fetch_more-IsOk :
      (tick cursor remaining : ℕ) (s : PrefetchState)
      → Readable file s
      → 0 < remaining
      → cursor + remaining ≤ length file
      → IsOk (fetch_more open_stream tick cursor remaining s).2
  unfolding fetch_more
  fetch_more-IsOk tick cursor remaining s r wanted fits =
      let p = prepare_fetch cursor remaining s in
      let inside : cursor < length file = omega (arith, wanted, fits) in
      let size = prepare_fetch-fetch_size file cursor remaining s r.mirrors inside in
      let got =
        fetch_data-IsOk tick cursor p.1 p.0 inside (omega (arith, size.0, wanted, inside)) in
      rw (got.1, fetch_more) (_, refl)

ok_err : {A : Type 0} (r : Result ℕ A) (a : A) (e : ℕ) → r ≡ ok a → r ≡ err e → ⊥
ok_err r a e h k = cc

-- Where a new stream begins with a byte of the file, wherever in the file it is asked to start, and gives
-- bytes of the file from there on, the read of a handle whose forward buffer, kept stream and seek
-- window hold bytes of the file from where they say hands out all the bytes, and not EIO: also where
-- the kept stream fails, or ends, before it has given them.
pub read-completes :
    (file : List ℕ) (open_stream : ℕ → ℕ → Option ℕ → Option Stream) (tick offset size : ℕ)
    (s : PrefetchState)
    (honest : (tick from : ℕ) (end : Option ℕ) → StreamAt file from (open_stream tick from end))
    (lively : (tick from : ℕ) (end : Option ℕ)
      → from < length file
      → Begins (open_stream tick from end))
    → Readable file s
    → MirrorsBack file s
    → (read open_stream tick offset size s).2
      ≡ some (
          ok (
            slice offset (min size (length file - offset)) file,
            leb (length file) (offset + min size (length file - offset)),
          ))
read-completes file open_stream tick offset size s honest lively r back =
    let f =
      read-Finished file open_stream honest ⊥
        (λ t c n u ru wanted fits failed.
          let o =
            fetch_more-IsOk file open_stream honest lively r.mirrors.room t c n u ru wanted fits in
          ok_err _ o.0 eio o.1 failed)
        tick offset size s r back in
    elim f.outcome [ inl e ↦ e | inr e ↦ absurd e.0 ]
