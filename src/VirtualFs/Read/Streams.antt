-- ===== src/VirtualFs/Read/Streams.antt =====
-- Download streams that give the bytes of a file.
use hf_mount_encrypted.Base.{
  ℕ, suc, ◌+◌, ◌-◌, ◌≤◌, ◌<◌, ◌^◌, ◌≡◌, refl, sym, ap, ap₂, ◌∙◌, true, false, List, [], ◌∷◌, ◌++◌,
  length, slice, ltb, arith, Bool-cases, inl, inr, slice-append,
}
use hf_mount_encrypted.Base.Word.{add64}
use hf_mount_encrypted.Prefetch.{chunk, failure, Stream}
use hf_mount_encrypted.Prefetch.Chunks.{concat}
use hf_mount_encrypted.VirtualFs.Read.{Drawn, draw}

module _ (file : List ℕ) where
  -- The stream gives bytes of the file from `at` on, up to its end or to a failure.
  abbrev pub Gives : ℕ → Stream → Type 0
  Gives at [] = Unit
  Gives at (failure ∷ st) = Unit
  Gives at (chunk c ∷ st) =
      (at + length c ≤ length file) × (c ≡ slice at (length c) file) × Gives (at + length c) st

  -- What the loop has drawn from such a stream: a piece of the file, and the stream behind it where
  -- it has not failed.
  pub record DrawnTrue (at total : ℕ) (d : Drawn) : Type 0 where
    pub more : total ≤ d.total
    pub within : at + (d.total - total) ≤ length file
    pub held : concat d.chunks ≡ slice at (d.total - total) file
    pub goes_on : d.failed ≡ false → Gives (at + (d.total - total)) d.left

  nothing :
      (at total : ℕ) (d : Drawn)
      → d.total ≡ total
      → at ≤ length file
      → d.chunks ≡ []
      → (d.failed ≡ false → Gives at d.left)
      → DrawnTrue at total d
  nothing at total d t within c g =
      let z : d.total - total ≡ 0 = omega (arith, t) in
      let same : at + (d.total - total) ≡ at = omega (arith, t) in
      record {
        more = omega (arith, t);
        within = omega (arith, t, within);
        held = ap concat c ∙ ap (λ (n : ℕ). slice at n file) (sym z);
        goes_on = λ f. rw same (g f);
      }

  pub draw-DrawnTrue :
      (fetch_size at total : ℕ) (st : Stream)
      → Gives at st
      → at ≤ length file
      → length file < 2 ^ 63
      → total ≤ at
      → DrawnTrue at total (draw fetch_size total st)
  unfolding draw
  draw-DrawnTrue fetch_size at total [] g within room small =
      nothing at total _ refl within refl (λ f. tt)
  draw-DrawnTrue fetch_size at total (failure ∷ st) g within room small =
      elim (Bool-cases (ltb total fetch_size)) [
        | inl h ↦ rw h (nothing at total _ refl within refl (λ f. cc))
        | inr h ↦ rw h (nothing at total _ refl within refl (λ f. tt))
      ]
  draw-DrawnTrue fetch_size at total (chunk c ∷ st) g within room small =
      elim (Bool-cases (ltb total fetch_size)) [
        | inr h ↦ rw h (nothing at total _ refl within refl (λ f. g))
        | inl h ↦
            let n = length c in
            let sum : add64 total n ≡ total + n = omega (arith, g.0, room, small) in
            let d =
              draw-DrawnTrue fetch_size (at + n) (add64 total n) st g.2 g.0 room
                (omega (arith, sum, small)) in
            let all = (draw fetch_size (add64 total n) st).total in
            let parts : all - total ≡ n + (all - add64 total n) = omega (arith, sum, d.more) in
            let end : at + n + (all - add64 total n) ≡ at + (all - total) =
              omega (arith, sum, d.more) in
            rw h (record {
              more = omega (arith, sum, d.more);
              within = omega (arith, end, d.within);
              held =
                  ap₂ ◌++◌ g.1 d.held
                  ∙ slice-append at n (all - add64 total n) file g.0
                  ∙ ap (λ (k : ℕ). slice at k file) (sym parts);
              goes_on = λ f. rw (sym end) (d.goes_on f);
            })
      ]

  abbrev later : ℕ → ℕ → List ℕ → Stream → Drawn
  later fetch_size total c st =
      let d = draw fetch_size (add64 total (length c)) st in record d { chunks = c ∷ d.chunks }

  draw_chunk :
      (fetch_size total : ℕ) (c : List ℕ) (st : Stream)
      → total < fetch_size
      → draw fetch_size total (chunk c ∷ st) ≡ later fetch_size total c st
  unfolding draw
  draw_chunk fetch_size total c st wanted =
      let h : ltb total fetch_size ≡ true = ground (arith, wanted) in rw h refl

  -- A loop that wants bytes, draws none and has not failed has come to the end of the stream.
  pub draw-left :
      (fetch_size at : ℕ) (st : Stream)
      → Gives at st
      → length file < 2 ^ 63
      → 0 < fetch_size
      → (draw fetch_size 0 st).total ≡ 0
      → (draw fetch_size 0 st).failed ≡ false
      → (draw fetch_size 0 st).left ≡ []
  unfolding draw
  draw-left fetch_size at [] g room wanted none_drawn f = refl
  draw-left fetch_size at (failure ∷ st) g room wanted none_drawn f =
      absurd (ground (arith, wanted, f))
  draw-left fetch_size at (chunk [] ∷ st) g room wanted none_drawn f =
      let e = draw_chunk fetch_size 0 [] st wanted in
      ap (λ (d : Drawn). d.left) e
      ∙ draw-left fetch_size (at + 0) st g.2 room wanted
          (sym (ap (λ (d : Drawn). d.total) e) ∙ none_drawn)
          (sym (ap (λ (d : Drawn). d.failed) e) ∙ f)
  draw-left fetch_size at (chunk (x ∷ c) ∷ st) g room wanted none_drawn f =
      let e = draw_chunk fetch_size 0 (x ∷ c) st wanted in
      let n = suc (length c) in
      let d =
        draw-DrawnTrue fetch_size (at + n) (add64 0 n) st g.2 g.0 room (omega (arith, room, g.0)) in
      absurd (omega (arith, d.more, room, g.0, sym (ap (λ (d : Drawn). d.total) e) ∙ none_drawn))

  -- A stream whose first chunk holds a byte gives some.
  pub draw-some :
      (fetch_size at : ℕ) (c : List ℕ) (st : Stream)
      → Gives at (chunk c ∷ st)
      → length file < 2 ^ 63
      → 0 < length c
      → 0 < fetch_size
      → 0 < (draw fetch_size 0 (chunk c ∷ st)).total
  draw-some fetch_size at c st g room filled wanted =
      let n = length c in
      let d =
        draw-DrawnTrue fetch_size (at + n) (add64 0 n) st g.2 g.0 room (omega (arith, room, g.0)) in
      omega (
        arith,
        d.more,
        room,
        g.0,
        filled,
        ap (λ (d : Drawn). d.total) (draw_chunk fetch_size 0 c st wanted),
      )
