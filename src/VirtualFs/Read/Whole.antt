-- ===== src/VirtualFs/Read/Whole.antt =====
-- `read` as a whole hands out the file's bytes.
use hf_mount_encrypted.Base.{
  ℕ, zero, suc, ◌+◌, ◌-◌, ◌≤◌, ◌<◌, ◌^◌, ◌≡◌, refl, sym, ap, ap₂, ◌∙◌, Bool, true, false, Option,
  some, List, [], ◌++◌, length, slice, ltb, leb, ◌==◌, min, arith, Bool-cases, Option-cases, inl,
  inr, ◌⊎◌, subst, slice-append, length-append,
}
use hf_mount_encrypted.Base.Word.{add64}
use hf_mount_encrypted.Base.Results.{Result, ok, err, Result-cases}
use hf_mount_encrypted.Prefetch.{PrefetchState, Stream, try_serve_forward, try_serve_seek}
use hf_mount_encrypted.Prefetch.Mirror.{MirrorsBack}
use hf_mount_encrypted.Prefetch.Serve.{
  try_serve_forward-answer, try_serve_forward-Mirrors, try_serve_forward-Kept, try_serve_seek-found,
  answer_lem,
}
use hf_mount_encrypted.VirtualFs.Read.{fetch_more, read_loop, read_rest_of, read, eio}
use hf_mount_encrypted.VirtualFs.Read.Fetch.{StreamAt}
use hf_mount_encrypted.VirtualFs.Read.Loop.{Readable, Turn, TurnResult, fetch_more-TurnResult}

module _ (file : List ℕ) (open_stream : ℕ → ℕ → Option ℕ → Option Stream)
    (honest : (tick from : ℕ) (end : Option ℕ) → StreamAt file from (open_stream tick from end))
    (Fails : Type 0)
    (fails : (tick cursor remaining : ℕ) (s : PrefetchState)
      → Readable file s
      → 0 < remaining
      → cursor + remaining ≤ length file
      → (fetch_more open_stream tick cursor remaining s).2 ≡ err eio
      → Fails) where
  abbrev pub Outcome : Type 0
  Outcome = PrefetchState × ℕ × Option (Result ℕ (List ℕ × Bool))

  -- The read is over with all the bytes, or with an error; the forward buffer and the kept stream are
  -- still true to the file.
  pub record Finished (offset to_read : ℕ) (r : Outcome) : Type 0 where
    pub readable : Readable file r.0
    pub outcome :
        (r.2 ≡ some (ok (slice offset to_read file, leb (length file) (offset + to_read))))
        ⊎ (Fails × (r.2 ≡ some (err eio)))

  module _ (offset to_read : ℕ) (within : offset + to_read ≤ length file)
      (room : length file < 2 ^ 63) where
    complete :
        (tick : ℕ) (response : List ℕ) (eof : Bool) (s : PrefetchState)
        → Readable file s
        → response ≡ slice offset (length response) file
        → length response ≡ to_read
        → eof ≡ leb (length file) (offset + to_read)
        → Finished offset to_read (s, tick, some (ok (response, eof)))
    complete tick response eof s r right whole last = record {
      readable = r;
      outcome = inl (
          ap₂ (λ b (e : Bool). some (ok (b, e))) (right ∙ ap (λ (n : ℕ). slice offset n file) whole)
            last);
    }

    at_end :
        (cursor n : ℕ) (s : PrefetchState)
        → Readable file s
        → cursor ≡ offset + n
        → n ≡ to_read
        → (cursor == s.file_size) ≡ leb (length file) (offset + to_read)
    at_end cursor n s r at whole = ground (arith, r.mirrors.sized, at, whole, within)

    -- The loop ends, with the bytes that are missing for fuel.
    read_loop-Finished :
        (fuel tick cursor : ℕ) (response : List ℕ) (s : PrefetchState)
        → Readable file s
        → response ≡ slice offset (length response) file
        → cursor ≡ offset + length response
        → length response ≤ to_read
        → to_read ≤ length response + fuel
        → Finished offset to_read (read_loop open_stream fuel tick to_read cursor response s)
    unfolding read_loop
    read_loop-Finished zero tick cursor response s r right at small enough =
        let done : ltb (length response) to_read ≡ false = ground (arith, enough) in
        rw done (
          complete tick response (cursor == s.file_size) s r right (omega (arith, small, enough))
            (at_end cursor (length response) s r at (omega (arith, small, enough))))
    read_loop-Finished (suc fuel) tick cursor response s r right at small enough =
        elim (Bool-cases (ltb (length response) to_read)) [
          | inr h ↦ rw h (
              complete tick response (cursor == s.file_size) s r right (ground (arith, h, small))
                (at_end cursor (length response) s r at (ground (arith, h, small))))
          | inl h ↦
              let n = length response in
              let remaining = to_read - n in
              let more = fetch_more open_stream tick cursor remaining s in
              let wanted : 0 < remaining = ground (arith, h) in
              let fits : cursor + remaining ≤ length file = omega (arith, within, at, small) in
              let turn =
                fetch_more-TurnResult file open_stream honest tick cursor remaining s r wanted
                  fits in
              elim (Result-cases more.2) [
                | inl (bytes, e) ↦
                    let t : Turn file open_stream honest cursor remaining more.0 bytes =
                      subst (λ a. TurnResult file open_stream honest cursor remaining more.0 a) e
                        turn in
                    let sum = length-append response bytes in
                    rw h (
                      rw e (
                        read_loop-Finished fuel more.1 (add64 cursor (length bytes))
                          (response ++ bytes) more.0 t.readable
                          (ap₂ ◌++◌ right (t.right ∙ ap (λ (i : ℕ). slice i (length bytes) file) at)
                            ∙ slice-append offset n (length bytes) file
                                (omega (arith, within, small))
                            ∙ ap (λ (k : ℕ). slice offset k file) (sym sum))
                          (omega (arith, sum, at, t.fits, fits, room))
                          (omega (arith, sum, t.fits, small))
                          (omega (arith, sum, t.grows, enough))))
                | inr (code, e) ↦
                    let stopped : (code ≡ eio) × Readable file more.0 =
                      subst (λ a. TurnResult file open_stream honest cursor remaining more.0 a) e
                        turn in
                    rw h (
                      rw e (record {
                        readable = stopped.1;
                        outcome = inr (
                          fails tick cursor remaining s r wanted fits (e ∙ ap err stopped.0),
                          ap (λ (c : ℕ). some (err c)) stopped.0,
                        );
                      }))
              ]
        ]

    read_rest_of-Finished :
        (tick : ℕ) (found : List ℕ) (s : PrefetchState)
        → Readable file s
        → found ≡ slice offset (length found) file
        → length found ≤ to_read
        → Finished offset to_read (read_rest_of open_stream tick offset to_read found s)
    unfolding read_rest_of
    read_rest_of-Finished tick found s r right small =
        let len : length found ≤ length file = omega (arith, small, within) in
        let sum : add64 offset (length found) ≡ offset + length found =
          omega (arith, small, within, room) in
        elim (Bool-cases (length found == to_read)) [
          | inl h ↦ rw h (
              complete tick found (leb s.file_size (add64 offset (length found))) s r right
                (ground (arith, h))
                (ap₂ leb r.mirrors.sized sum
                  ∙ ap (λ (n : ℕ). leb (length file) (offset + n)) (ground (arith, h))))
          | inr h ↦ rw h (
              read_loop-Finished to_read tick (add64 offset (length found)) found s r right sum
                small (omega arith))
        ]

  past_end :
      (tick offset size : ℕ) (s : PrefetchState)
      → Readable file s
      → (leb s.file_size offset) ≡ true
      → Finished offset (min size (length file - offset)) (s, tick, some (ok ([], true)))
  past_end tick offset size s r h =
      let none_left : min size (length file - offset) ≡ 0 = ground (arith, h, r.mirrors.sized) in
      let last : leb (length file) (offset + min size (length file - offset)) ≡ true =
        ground (arith, h, r.mirrors.sized) in
      record {
        readable = r;
        outcome = inl (
            ap₂ (λ b (e : Bool). some (ok (b, e)))
              (ap (λ (n : ℕ). slice offset n file) (sym none_left)) (sym last));
      }

  pub read-Finished :
      (tick offset size : ℕ) (s : PrefetchState)
      → Readable file s
      → MirrorsBack file s
      → Finished offset (min size (length file - offset)) (read open_stream tick offset size s)
  unfolding read
  read-Finished tick offset size s r back =
      let m = r.mirrors in
      let forward = try_serve_forward offset size s in
      let wanted : min size (s.file_size - offset) ≡ min size (length file - offset) =
        ap (λ (n : ℕ). min size (n - offset)) m.sized in
      elim (Bool-cases (leb s.file_size offset)) [
        | inl h ↦ rw h (past_end tick offset size s r h)
        | inr h ↦
            let within : offset + min size (length file - offset) ≤ length file =
              ground (arith, h, m.sized) in
            elim (Option-cases forward.1) [
              | inr (found, e) ↦
                  let a =
                    answer_lem file s.buf_start s.chunks_len offset size found
                      (sym (try_serve_forward-answer file offset size s m) ∙ e) m.within in
                  let kept = try_serve_forward-Kept file offset size s m in
                  let r2 : Readable file forward.0 = record {
                    mirrors = try_serve_forward-Mirrors file offset size s m;
                    stream_at = rw (kept.end_kept, kept.stream_kept) r.stream_at;
                  } in
                  rw h (
                    rw e (
                      rw wanted (
                        read_rest_of-Finished offset (min size (length file - offset)) within m.room
                          tick found forward.0 r2 a.0 a.1)))
              | inl e ↦ elim (Option-cases (try_serve_seek offset size s)) [
                | inr (found, k) ↦
                    let a =
                      answer_lem file s.seek_start (length s.seek_data) offset size found
                        (try_serve_seek-found file offset size s found m.room back k)
                        back.back_within in
                    rw h (
                      rw e (
                        rw k (
                          rw wanted (
                            read_rest_of-Finished offset (min size (length file - offset)) within
                              m.room tick found s r a.0 a.1))))
                | inl k ↦ rw h (
                    rw e (
                      rw k (
                        rw wanted (
                          read_loop-Finished offset (min size (length file - offset)) within m.room
                            (min size (length file - offset)) tick offset [] s r refl (omega arith)
                            (omega arith) (omega arith)))))
              ]
            ]
      ]

-- Where every stream that is opened gives bytes of the file from where it was asked to start, and the
-- forward buffer, the kept stream and the seek window of the handle hold bytes of the file from where
-- they say, a read ends: with the file's bytes from the offset on, as many as are wanted and there,
-- and the mark of the end where they reach it; or with EIO. The forward buffer and the kept stream are
-- true to the file afterwards too. Of the seek window behind the read it says nothing.
pub read-file :
    (file : List ℕ) (open_stream : ℕ → ℕ → Option ℕ → Option Stream) (tick offset size : ℕ)
    (s : PrefetchState)
    (honest : (tick from : ℕ) (end : Option ℕ) → StreamAt file from (open_stream tick from end))
    → Readable file s
    → MirrorsBack file s
    → (((read open_stream tick offset size s).2
          ≡ some (
              ok (
                slice offset (min size (length file - offset)) file,
                leb (length file) (offset + min size (length file - offset)),
              )))
        ⊎ ((read open_stream tick offset size s).2 ≡ some (err eio)))
      × Readable file (read open_stream tick offset size s).0
read-file file open_stream tick offset size s honest r back =
    let f =
      read-Finished file open_stream honest Unit (λ t c n u _ _ _ _. tt) tick offset size s r
        back in
    (elim f.outcome [ inl e ↦ inl e | inr e ↦ inr e.1 ], f.readable)
