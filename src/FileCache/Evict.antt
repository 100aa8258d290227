-- ===== src/FileCache/Evict.antt =====
-- What an eviction removes, and what it leaves.
use hf_mount_encrypted.Base.{
  ℕ, ◌+◌, ◌-◌, ◌≤◌, ◌<◌, ◌^◌, ◌≡◌, sym, ap, ◌∙◌, Bool, true, false, Option, none, some, List, [],
  ◌∷◌, leb, if◌then◌else◌, arith, Bool-cases, inl, inr,
}
use mathlib.Core.Option.{some-injective}
use hf_mount_encrypted.Base.Word.{add64, sub64}
use hf_mount_encrypted.Base.Eq.{text_eq, ◌==◌, eq_of_same, same_refl}
use hf_mount_encrypted.Base.Map.{find, find-erase}
use hf_mount_encrypted.FileCache.{
  Text, CacheItem, State, remove_item, remove_items, evict_locked, pick_victims, sort_entries,
  total_without,
}
use hf_mount_encrypted.FileCache.Account.{
  Entries, bytes_of, AreDistinct, Accounted, head_here, head_other, none-some,
}
use hf_mount_encrypted.FileCache.Order.{IsAscending, sort_entries-Sorted, flip}

-- The entries that the loop does not pick.
abbrev rest_of : ℕ → ℕ → ℕ → Entries → Entries
rest_of total capacity freed [] = []
rest_of total capacity freed (e ∷ es) =
    let rest = rest_of total capacity (add64 freed e.1.size) es in
    if leb (sub64 total freed) capacity then e ∷ es else rest

-- The index behind the removals.
record Left (capacity : ℕ) (s : State) (rest : Entries) : Type 0 where
  fits : s.total_bytes ≤ capacity
  kept : (j : Text) → find j s.items ≡ find j rest

removed_total :
    (hash : Text) (item : CacheItem) (s : State)
    → find hash s.items ≡ some item
    → (remove_item hash s).total_bytes ≡ s.total_bytes - item.size
unfolding remove_item total_without
removed_total hash item s e = ap (λ (o : Option CacheItem). total_without o s.total_bytes) e

removed_entries :
    (e : Text × CacheItem) (es : Entries) (s : State)
    → find e.0 es ≡ none
    → ((j : Text) → find j s.items ≡ find j (e ∷ es))
    → (j : Text) → find j (remove_item e.0 s).items ≡ find j es
unfolding remove_item
removed_entries e es s absent agree j = elim (Bool-cases (e.0 == j)) [
  | inl k ↦
      let at : find j es ≡ none = rw (sym (eq_of_same e.0 j k)) absent in
      find-erase e.0 j s.items ∙ ap (λ (b : Bool). if b then none else find j s.items) k ∙ sym at
  | inr k ↦
      find-erase e.0 j s.items
      ∙ ap (λ (b : Bool). if b then none else find j s.items) k
      ∙ agree j
      ∙ head_other j e.0 e.1 es (flip e.0 j k)
]

module _ (total capacity : ℕ) (room : total < 2 ^ 64) where
  remove_victims :
      (freed : ℕ) (es : Entries) (s : State)
      → AreDistinct es
      → ((j : Text) → find j s.items ≡ find j es)
      → s.total_bytes ≡ bytes_of es
      → s.total_bytes + freed ≡ total
      → Left capacity
          (remove_items (pick_victims total capacity freed es) s)
          (rest_of total capacity freed es)
  unfolding pick_victims remove_items
  remove_victims freed [] s d agree counted parts = record {
    fits = omega (arith, counted);
    kept = agree;
  }
  remove_victims freed (e ∷ es) s d agree counted parts =
      let left : sub64 total freed ≡ s.total_bytes = omega (arith, parts, room) in
      elim (Bool-cases (leb (sub64 total freed) capacity)) [
        | inl h ↦ rw h (record { fits = ground (arith, h, left); kept = agree })
        | inr h ↦
            let sum : add64 freed e.1.size ≡ freed + e.1.size =
              omega (arith, parts, counted, room) in
            let u = remove_item e.0 s in
            let less =
              removed_total e.0 e.1 s (agree e.0 ∙ head_here e.0 e.0 e.1 es (same_refl e.0)) in
            rw h (
              remove_victims (add64 freed e.1.size) es u d.1 (removed_entries e es s d.0 agree)
                (omega (arith, less, counted)) (omega (arith, less, sum, counted, parts)))
      ]

  rest_found :
      (freed : ℕ) (es : Entries) (j : Text) (item : CacheItem)
      → AreDistinct es
      → find j (rest_of total capacity freed es) ≡ some item
      → find j es ≡ some item
  rest_found freed [] j item d found = found
  rest_found freed (e ∷ es) j item d found = elim (Bool-cases (leb (sub64 total freed) capacity)) [
    | inl h ↦
        sym (
          ap
            (λ (b : Bool).
              find j (if b then e ∷ es else rest_of total capacity (add64 freed e.1.size) es))
            h)
        ∙ found
    | inr h ↦
        let later = rest_found (add64 freed e.1.size) es j item d.1 (
          sym (
            ap
              (λ (b : Bool).
                find j (if b then e ∷ es else rest_of total capacity (add64 freed e.1.size) es))
              h)
          ∙ found) in
        elim (Bool-cases (j == e.0)) [
          | inl k ↦ absurd (none-some item (sym later ∙ (rw (eq_of_same j e.0 k) d.0)))
          | inr k ↦ head_other j e.0 e.1 es k ∙ later
        ]
  ]

  -- What the loop picks is no newer than what it leaves.
  picked_older :
      (freed : ℕ) (es : Entries) (gone kept : Text) (older newer : CacheItem)
      → AreDistinct es
      → IsAscending es
      → find gone es ≡ some older
      → find gone (rest_of total capacity freed es) ≡ none
      → find kept (rest_of total capacity freed es) ≡ some newer
      → older.last_access ≤ newer.last_access
  picked_older freed [] gone kept older newer d a here missing found =
      absurd (none-some older (sym here ∙ missing))
  picked_older freed (e ∷ es) gone kept older newer d a here missing found =
      elim (Bool-cases (leb (sub64 total freed) capacity)) [
        | inl h ↦ absurd (
            none-some older (
              sym here
              ∙ sym (
                  ap
                    (λ (b : Bool).
                      find gone
                        (if b then e ∷ es else rest_of total capacity (add64 freed e.1.size) es))
                    h)
              ∙ missing))
        | inr h ↦
            let step = λ (j : Text).
              ap
                (λ (b : Bool).
                  find j (if b then e ∷ es else rest_of total capacity (add64 freed e.1.size) es))
                h in
            let found2 = sym (step kept) ∙ found in
            elim (Bool-cases (gone == e.0)) [
              | inl k ↦
                  let same = some-injective e.1 older (sym (head_here gone e.0 e.1 es k) ∙ here) in
                  rw (sym same)
                    (a.0 kept newer (rest_found (add64 freed e.1.size) es kept newer d.1 found2))
              | inr k ↦
                  picked_older (add64 freed e.1.size) es gone kept older newer d.1 a.1
                    (sym (head_other gone e.0 e.1 es k) ∙ here) (sym (step gone) ∙ missing) found2
            ]
      ]

evicted :
    (capacity : ℕ) (s : State)
    → Accounted s
    → s.total_bytes < 2 ^ 64
    → Left capacity
        (remove_items (pick_victims s.total_bytes capacity 0 (sort_entries s.items)) s)
        (rest_of s.total_bytes capacity 0 (sort_entries s.items))
evicted capacity s a room =
    let sorted = sort_entries-Sorted s.items a.distinct in
    remove_victims s.total_bytes capacity room 0 (sort_entries s.items) s sorted.distinct
      (λ j. sym (sorted.same_entries j)) (a.total ∙ sym sorted.same_bytes) (omega arith)

-- Behind an eviction the entries fit the capacity.
pub evict_locked-fits :
    (capacity : ℕ) (s : State)
    → Accounted s
    → s.total_bytes < 2 ^ 64
    → (evict_locked capacity s).0.total_bytes ≤ capacity
unfolding evict_locked
evict_locked-fits capacity s a room = elim (Bool-cases (leb s.total_bytes capacity)) [
  | inl h ↦ rw h (ground (arith, h))
  | inr h ↦ rw h ((evicted capacity s a room).fits)
]

-- An eviction removes those that were opened longest ago: an entry that is gone was last opened
-- no later than any that is kept.
pub evict_locked-oldest :
    (capacity : ℕ) (s : State) (gone kept : Text) (older newer : CacheItem)
    → Accounted s
    → s.total_bytes < 2 ^ 64
    → find gone s.items ≡ some older
    → find gone (evict_locked capacity s).0.items ≡ none
    → find kept (evict_locked capacity s).0.items ≡ some newer
    → older.last_access ≤ newer.last_access
unfolding evict_locked
evict_locked-oldest capacity s gone kept older newer a room here missing found =
    let sorted = sort_entries-Sorted s.items a.distinct in
    let es = sort_entries s.items in
    let victims = pick_victims s.total_bytes capacity 0 es in
    let left = evicted capacity s a room in
    let out : Bool → State × List Text =
      λ b. if b then (s, []) else (remove_items victims s, victims) in
    let step = λ (j : Text) (b : Bool) (h : leb s.total_bytes capacity ≡ b).
      ap (λ (b : Bool). find j (out b).0.items) h in
    elim (Bool-cases (leb s.total_bytes capacity)) [
      | inl h ↦ absurd (none-some older (sym here ∙ sym (step gone true h) ∙ missing))
      | inr h ↦
          picked_older s.total_bytes capacity room 0 es gone kept older newer sorted.distinct
            sorted.ascending (sorted.same_entries gone ∙ here)
            (sym (left.kept gone) ∙ sym (step gone false h) ∙ missing)
            (sym (left.kept kept) ∙ sym (step kept false h) ∙ found)
    ]
