-- ===== src/Flush/Batch.antt =====
-- The order of the operations that a flush sends.
use hf_mount_encrypted.Base.{
  ℕ, ◌≡◌, ◌≢◌, ◌⊎◌, refl, sym, ap, ◌∙◌, true, false, Option, none, some, List, [], ◌∷◌, ◌++◌, arith,
  Bool-cases, true-false, inl, inr, All, All-append, subst,
}
use mathlib.Core.List.{Memᴰ}
use mathlib.Core.List.Memᴰ.{head, tail, not-nil, cases_cons, append_left, append_right}
use hf_mount_encrypted.Base.Eq.{text_eq, eq_of_same, same_refl}
use hf_mount_encrypted.Inode.{Text, is_nil}
use hf_mount_encrypted.Flush.{
  FlushItem, Uploaded, BatchOp, add_file, delete_file, is_unchanged, same_hash, deletes_of,
  collect_ops, batch_ops,
}

-- The file has left a path since its last commit, or its upload has another hash than it had before.
abbrev pub Changed : FlushItem × Uploaded → Type 0
Changed x = (x.0.pending_deletes ≢ []) ⊎ (x.0.prev_xet_hash ≢ some x.1.hash)

-- The add of a changed file.
abbrev pub AddsChanged : ℕ → List (FlushItem × Uploaded) → BatchOp → Type 0
AddsChanged mtime uploads op =
    (x : FlushItem × Uploaded) × Memᴰ x uploads
    × Changed x
    × (op ≡ add_file x.0.full_path x.1.hash mtime)

-- The delete of a path that a file has left.
abbrev pub DeletesLeft : List (FlushItem × Uploaded) → BatchOp → Type 0
DeletesLeft uploads op =
    (x : FlushItem × Uploaded) × Memᴰ x uploads
    × (p : Text) × Memᴰ p x.0.pending_deletes
    × (op ≡ delete_file p)

is_nil_lem : {A : Type 0} (l : List A) → is_nil l ≡ true → l ≡ []
is_nil_lem [] h = refl
is_nil_lem (x ∷ l) h = cc

same_hash_lem : (o : Option Text) (hash : Text) → same_hash o hash ≡ true → o ≡ some hash
same_hash_lem none hash h = cc
same_hash_lem (some old) hash h = ap some (eq_of_same old hash h)

Changed-is_unchanged : (i : FlushItem) (u : Uploaded) → Changed (i, u) → is_unchanged i u ≡ false
unfolding is_unchanged
Changed-is_unchanged i u changed = elim (Bool-cases (is_unchanged i u)) [
  | inr h ↦ h
  | inl h ↦ elim changed [
    | inl left ↦ absurd (left (is_nil_lem i.pending_deletes (ground (arith, h))))
    | inr new ↦ absurd (new (same_hash_lem i.prev_xet_hash u.hash (ground (arith, h))))
  ]
]

is_unchanged-Changed : (i : FlushItem) (u : Uploaded) → is_unchanged i u ≡ false → Changed (i, u)
unfolding is_unchanged
is_unchanged-Changed i u h = elim (Bool-cases (is_nil i.pending_deletes)) [
  | inr k ↦ inl (λ e. true-false (sym (ap is_nil e) ∙ k))
  | inl k ↦ inr (λ e.
      let other : same_hash i.prev_xet_hash u.hash ≡ false = ground (arith, h, k) in
      true-false (sym (same_refl u.hash) ∙ sym (ap (λ o. same_hash o u.hash) e) ∙ other))
]

All-imp : {A : Type 0} {P Q : A → Type 0} → ((a : A) → P a → Q a) → (l : List A) → All P l → All Q l
All-imp f [] h = tt
All-imp f (a ∷ l) h = (f a h.0, All-imp f l h.1)

deletes_of-left :
    (x : FlushItem × Uploaded) (uploads : List (FlushItem × Uploaded)) (ps : List Text)
    → Memᴰ x uploads
    → ((p : Text) → Memᴰ p ps → Memᴰ p x.0.pending_deletes)
    → All (DeletesLeft uploads) (deletes_of ps)
unfolding deletes_of
deletes_of-left x uploads [] m pending = tt
deletes_of-left x uploads (p ∷ ps) m pending = (
  (x, m, p, pending p (head refl), refl),
  deletes_of-left x uploads ps m (λ q n. pending q (tail n)),
)

deletes_of-all : (ps : List Text) → All (λ p. Memᴰ (delete_file p) (deletes_of ps)) ps
unfolding deletes_of
deletes_of-all [] = tt
deletes_of-all (p ∷ ps) = (head refl, All-imp (λ q m. tail m) ps (deletes_of-all ps))

-- What holds of each operation holds of it in a longer list of uploads.
later_adds :
    (mtime : ℕ) (u : FlushItem × Uploaded) (uploads : List (FlushItem × Uploaded)) (op : BatchOp)
    → AddsChanged mtime uploads op
    → AddsChanged mtime (u ∷ uploads) op
later_adds mtime u uploads op (x, m, c, e) = (x, tail m, c, e)

later_deletes :
    (u : FlushItem × Uploaded) (uploads : List (FlushItem × Uploaded)) (op : BatchOp)
    → DeletesLeft uploads op
    → DeletesLeft (u ∷ uploads) op
later_deletes u uploads op (x, m, p, n, e) = (x, tail m, p, n, e)

-- What the batch has of a file that is flushed.
abbrev IsSent : ℕ → List BatchOp × List BatchOp → FlushItem × Uploaded → Type 0
IsSent mtime ops x =
    Memᴰ (add_file x.0.full_path x.1.hash mtime) ops.0
    × All (λ p. Memᴰ (delete_file p) ops.1) x.0.pending_deletes

record Ordered (mtime : ℕ) (uploads : List (FlushItem × Uploaded))
    (ops : List BatchOp × List BatchOp) : Type 0 where
  adds : All (AddsChanged mtime uploads) ops.0
  deletes : All (DeletesLeft uploads) ops.1
  sent : (x : FlushItem × Uploaded) → Memᴰ x uploads → Changed x → IsSent mtime ops x

collect_ops-Ordered :
    (mtime : ℕ) (uploads : List (FlushItem × Uploaded))
    → Ordered mtime uploads (collect_ops mtime uploads)
unfolding collect_ops
collect_ops-Ordered mtime [] = record {
  adds = tt;
  deletes = tt;
  sent = λ x m changed. absurd (not-nil m);
}
collect_ops-Ordered mtime ((i, u) ∷ uploads) =
    let rest = collect_ops-Ordered mtime uploads in
    let ops = collect_ops mtime uploads in
    let adds = All-imp (later_adds mtime (i, u) uploads) ops.0 rest.adds in
    let deletes = All-imp (later_deletes (i, u) uploads) ops.1 rest.deletes in
    elim (Bool-cases (is_unchanged i u)) [
      | inl h ↦ rw h (record {
        adds = adds;
        deletes = deletes;
        sent = λ x m changed. elim (cases_cons m) [
          | inl e ↦ absurd (true-false (sym h ∙ Changed-is_unchanged i u (subst Changed e changed)))
          | inr later ↦ rest.sent x later changed
        ];
      })
      | inr h ↦ rw h (record {
        adds = (((i, u), head refl, is_unchanged-Changed i u h, refl), adds);
        deletes =
            All-append (DeletesLeft ((i, u) ∷ uploads)) (deletes_of i.pending_deletes) ops.1
              (deletes_of-left (i, u) ((i, u) ∷ uploads) i.pending_deletes (head refl) (λ p m. m))
              deletes;
        sent = λ x m changed. elim (cases_cons m) [
          | inl e ↦
              subst
                (IsSent mtime (
                  add_file i.full_path u.hash mtime ∷ ops.0,
                  deletes_of i.pending_deletes ++ ops.1,
                ))
                (sym e)
                (
                  head refl,
                  All-imp (λ p n. append_left ops.1 n) i.pending_deletes
                      (deletes_of-all i.pending_deletes),
                )
          | inr later ↦
              let s = rest.sent x later changed in
              (
                tail s.0,
                All-imp (λ p n. append_right (deletes_of i.pending_deletes) n) x.0.pending_deletes
                    s.1,
              )
        ];
      })
    ]

-- A batch is adds and, behind them, deletes. Each add is that of a flushed file that has left a path
-- or whose upload has another hash than the one it had, each delete is that of a path that a flushed
-- file has left. For every flushed file that has left a path or has a new hash, the add of its path
-- with the new hash is there, and the delete of each path that it has left.
pub batch_ops_lem :
    (mtime : ℕ) (uploads : List (FlushItem × Uploaded)) (x : FlushItem × Uploaded)
    → Memᴰ x uploads
    → Changed x
    → (adds : List BatchOp) × (deletes : List BatchOp) × (batch_ops mtime uploads ≡ adds ++ deletes)
      × All (AddsChanged mtime uploads) adds
      × All (DeletesLeft uploads) deletes
      × Memᴰ (add_file x.0.full_path x.1.hash mtime) adds
      × All (λ p. Memᴰ (delete_file p) deletes) x.0.pending_deletes
unfolding batch_ops
batch_ops_lem mtime uploads x member changed =
    let o = collect_ops-Ordered mtime uploads in
    let ops = collect_ops mtime uploads in
    let sent = o.sent x member changed in (ops.0, ops.1, refl, o.adds, o.deletes, sent.0, sent.1)
