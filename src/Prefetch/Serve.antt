-- ===== src/Prefetch/Serve.antt =====
-- The two serving routines hand out bytes of the file.
use hf_mount_encrypted.Base.{
  ℕ, ◌+◌, ◌-◌, ◌≤◌, ◌<◌, ◌^◌, ◌≡◌, refl, sym, ap, ap₂, ◌∙◌, Bool, true, false, ◌&&◌, ◌||◌, List,
  length, slice, inl, inr, min, leb, ltb, ◌==◌, if◌then◌else◌, arith, Bool-cases, slice-slice,
  length-slice, Option, some, none,
}
use mathlib.Core.Option.{some-injective}
use hf_mount_encrypted.Base.Word.{add64}
use hf_mount_encrypted.Prefetch.{PrefetchState, is_empty, try_serve_seek, try_serve_forward}
use hf_mount_encrypted.Prefetch.Mirror.{Mirrors, MirrorsBack}
use hf_mount_encrypted.Prefetch.Window.{read_chunk_range-file, is_empty_lem}
use hf_mount_encrypted.Prefetch.Drain.{drain_to_seek-Mirrors, Kept, drain_to_seek-Kept}

-- What a buffer that holds `len` bytes of the file from `start` on can answer.
abbrev pub answer : List ℕ → ℕ → ℕ → ℕ → ℕ → Option (List ℕ)
answer file start len offset size =
    if leb start offset && ltb offset (start + len)
    then some (slice offset (min size (start + len - offset)) file)
    else none

-- The forward buffer answers with the bytes of the file, where the offset lies in it, as many of
-- them as are wanted and held.
pub try_serve_forward-answer :
    (file : List ℕ) (offset size : ℕ) (s : PrefetchState)
    → Mirrors file s
    → (try_serve_forward offset size s).1 ≡ answer file s.buf_start s.chunks_len offset size
unfolding try_serve_forward
try_serve_forward-answer file offset size s m = elim (Bool-cases (s.chunks_len == 0)) [
  | inl h ↦
      let out : (leb s.buf_start offset && ltb offset (s.buf_start + s.chunks_len)) ≡ false =
        ground (arith, h) in
      rw (h, out) refl
  | inr h ↦
      let sum : add64 s.buf_start s.chunks_len ≡ s.buf_start + s.chunks_len =
        omega (arith, m.within, m.room) in
      elim (Bool-cases (ltb offset s.buf_start || leb (s.buf_start + s.chunks_len) offset)) [
        | inl k ↦
            let out : (leb s.buf_start offset && ltb offset (s.buf_start + s.chunks_len)) ≡ false =
              ground (arith, k) in
            rw (h, sum) (rw (k, out) refl)
        | inr k ↦
            let inside : (leb s.buf_start offset && ltb offset (s.buf_start + s.chunks_len))
                ≡ true =
              ground (arith, k) in
            let to_read = min size (s.chunks_len - (offset - s.buf_start)) in
            let served =
              read_chunk_range-file file s (offset - s.buf_start) to_read m (ground (arith, k)) in
            let at : s.buf_start + (offset - s.buf_start) ≡ offset = ground (arith, k) in
            let as_much : to_read ≡ min size (s.buf_start + s.chunks_len - offset) =
              ground (arith, k) in
            let bytes = served ∙ ap₂ (λ (i n : ℕ). slice i n file) at as_much in
            rw (h, sum)
              (rw (k, inside)
                (elim (Bool-cases (s.forward_only && ltb 0 to_read)) [
                  | inl e ↦ rw e (ap some bytes)
                  | inr e ↦ rw e (ap some bytes)
                ]))
      ]
]

pub try_serve_forward-Mirrors :
    (file : List ℕ) (offset size : ℕ) (s : PrefetchState)
    → Mirrors file s
    → Mirrors file (try_serve_forward offset size s).0
unfolding try_serve_forward
try_serve_forward-Mirrors file offset size s m =
    let logical_off = offset - s.buf_start in
    let to_read = min size (s.chunks_len - logical_off) in
    elim (Bool-cases (s.chunks_len == 0)) [
      | inl h ↦ rw h m
      | inr h ↦
          elim (Bool-cases
            (ltb offset s.buf_start || leb (add64 s.buf_start s.chunks_len) offset)) [
              | inl k ↦ rw (h, k) m
              | inr k ↦ elim (Bool-cases (s.forward_only && ltb 0 to_read)) [
                | inl e ↦ rw (h, k, e) (drain_to_seek-Mirrors file (logical_off + to_read) s m)
                | inr e ↦ rw (h, k, e) m
              ]
            ]
    ]

pub try_serve_forward-Kept :
    (file : List ℕ) (offset size : ℕ) (s : PrefetchState)
    → Mirrors file s
    → Kept s (try_serve_forward offset size s).0
unfolding try_serve_forward
try_serve_forward-Kept file offset size s m =
    let logical_off = offset - s.buf_start in
    let to_read = min size (s.chunks_len - logical_off) in
    let unchanged : Kept s s = record {
      file_size_kept = refl;
      window_kept = refl;
      stream_kept = refl;
      end_kept = refl;
    } in
    elim (Bool-cases (s.chunks_len == 0)) [
      | inl h ↦ rw h unchanged
      | inr h ↦
          elim (Bool-cases
            (ltb offset s.buf_start || leb (add64 s.buf_start s.chunks_len) offset)) [
              | inl k ↦ rw (h, k) unchanged
              | inr k ↦ elim (Bool-cases (s.forward_only && ltb 0 to_read)) [
                | inl e ↦ rw (h, k, e) (drain_to_seek-Kept file (logical_off + to_read) s m)
                | inr e ↦ rw (h, k, e) unchanged
              ]
            ]
    ]

-- The tests of the seek window against those of its answer.
window_case :
    (f e p q : Bool) (x y : List ℕ)
    → (e ≡ true → q ≡ false)
    → (p ≡ q)
    → (q ≡ true → x ≡ y)
    → (if f || e then none else if p then some x else none)
      ≡ (if f then none else if q then some y else none)
window_case true e p q x y out same bytes = refl
window_case false true p q x y out same bytes = rw (out refl) refl
window_case false false p true x y out same bytes = rw (same, bytes refl) refl
window_case false false p false x y out same bytes = rw same refl

-- The seek window answers with the bytes of the file, where it is true to it and the offset lies in
-- it; on a handle that only moves forward it never answers.
pub try_serve_seek-answer :
    (file : List ℕ) (offset size : ℕ) (s : PrefetchState)
    → length file < 2 ^ 63
    → MirrorsBack file s
    → try_serve_seek offset size s
      ≡ (if s.forward_only then none else answer file s.seek_start (length s.seek_data) offset size)
unfolding try_serve_seek
try_serve_seek-answer file offset size s room m =
    let len = length s.seek_data in
    let sum : add64 s.seek_start len ≡ s.seek_start + len = omega (arith, m.back_within, room) in
    let inside = leb s.seek_start offset && ltb offset (s.seek_start + len) in
    let local_off = offset - s.seek_start in
    window_case s.forward_only (is_empty s.seek_data)
      (leb s.seek_start offset && ltb offset (add64 s.seek_start len)) inside
      (slice local_off (min size (len - local_off)) s.seek_data)
      (slice offset (min size (s.seek_start + len - offset)) file)
      (λ e. ground (arith, is_empty_lem s.seek_data e))
      (ap (λ (k : ℕ). leb s.seek_start offset && ltb offset k) sum)
      (λ i.
        let fits : local_off + min size (len - local_off) ≤ len = ground (arith, i) in
        let at : s.seek_start + local_off ≡ offset = ground (arith, i) in
        let as_much : min size (len - local_off) ≡ min size (s.seek_start + len - offset) =
          ground (arith, i) in
        ap (slice local_off (min size (len - local_off))) m.back_held
        ∙ slice-slice local_off (min size (len - local_off)) s.seek_start len file fits
        ∙ ap₂ (λ (j n : ℕ). slice j n file) at as_much)

answer_case :
    (c : Bool) (x found : List ℕ)
    → (if c then some x else none) ≡ some found
    → (c ≡ true) × (x ≡ found)
answer_case true x found e = (refl, some-injective x found e)
answer_case false x found e = cc

-- An answer is a piece of the file from the offset on.
pub answer_lem :
    (file : List ℕ) (start len offset size : ℕ) (found : List ℕ)
    → answer file start len offset size ≡ some found
    → start + len ≤ length file
    → (found ≡ slice offset (length found) file) × (length found ≤ min size (length file - offset))
answer_lem file start len offset size found e within =
    let n = min size (start + len - offset) in
    let c =
      answer_case (leb start offset && ltb offset (start + len)) (slice offset n file) found e in
    let inside = c.0 in
    let count : length found ≡ n =
      sym (ap length c.1) ∙ length-slice offset n file (ground (arith, inside, within)) in
    (sym c.1 ∙ ap (λ (k : ℕ). slice offset k file) (sym count), omega (arith, count, within))

else_case :
    (f : Bool) (o : Option (List ℕ)) (found : List ℕ)
    → (if f then none else o) ≡ some found
    → o ≡ some found
else_case true o found e = cc
else_case false o found e = e

pub try_serve_seek-found :
    (file : List ℕ) (offset size : ℕ) (s : PrefetchState) (found : List ℕ)
    → length file < 2 ^ 63
    → MirrorsBack file s
    → try_serve_seek offset size s ≡ some found
    → answer file s.seek_start (length s.seek_data) offset size ≡ some found
try_serve_seek-found file offset size s found room m e =
    else_case s.forward_only (answer file s.seek_start (length s.seek_data) offset size) found
      (sym (try_serve_seek-answer file offset size s room m) ∙ e)
