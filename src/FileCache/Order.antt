-- ===== src/FileCache/Order.antt =====
-- The entries in the order of their last access.
use hf_mount_encrypted.Base.{
  ℕ, ◌+◌, ◌≤◌, ◌≡◌, refl, sym, ap, ◌∙◌, false, Option, none, some, [], ◌∷◌, leb, if◌then◌else◌,
  arith, Bool-cases, inl, inr,
}
use mathlib.Core.Option.{some-injective}
use hf_mount_encrypted.Base.Eq.{text_eq, ◌==◌}
use hf_mount_encrypted.Base.Map.{find}
use hf_mount_encrypted.FileCache.{Text, CacheItem, sort_entries, insert_sorted}
use hf_mount_encrypted.FileCache.Account.{
  Entries, bytes_of, AreDistinct, head_here, head_other, none-some,
}

-- Every entry was opened before those that follow it.
abbrev pub IsAscending : Entries → Type 0
IsAscending [] = Unit
IsAscending ((hash, item) ∷ es) =
    ((j : Text) (other : CacheItem) → find j es ≡ some other → item.last_access ≤ other.last_access)
    × IsAscending es

bytes_of-insert_sorted :
    (e : Text × CacheItem) (es : Entries) → bytes_of (insert_sorted e es) ≡ e.1.size + bytes_of es
unfolding insert_sorted
bytes_of-insert_sorted e [] = refl
bytes_of-insert_sorted e (f ∷ fs) = elim (Bool-cases (leb e.1.last_access f.1.last_access)) [
  | inl h ↦ rw h refl
  | inr h ↦ rw h (omega (arith, bytes_of-insert_sorted e fs))
]

pub absent_tail :
    (k : Text) (f : Text × CacheItem) (fs : Entries)
    → find k (f ∷ fs) ≡ none
    → ((k == f.0) ≡ false) × (find k fs ≡ none)
absent_tail k f fs absent = elim (Bool-cases (k == f.0)) [
  | inl h ↦ absurd (none-some f.1 (sym (head_here k f.0 f.1 fs h) ∙ absent))
  | inr h ↦ (h, sym (head_other k f.0 f.1 fs h) ∙ absent)
]

find_cons :
    (j : Text) (e : Text × CacheItem) (es fs : Entries)
    → find j es ≡ find j fs
    → find j (e ∷ es) ≡ find j (e ∷ fs)
unfolding find
find_cons j e es fs h = ap (λ (o : Option CacheItem). if j == e.0 then some e.1 else o) h

pub flip : (k j : Text) → (k == j) ≡ false → (j == k) ≡ false
flip k j h = ground (arith, text_eq.same_iff k j, text_eq.same_iff j k)

-- Looking an entry up in the list with another in its place.
find-insert_sorted :
    (e : Text × CacheItem) (es : Entries)
    → find e.0 es ≡ none
    → (j : Text) → find j (insert_sorted e es) ≡ find j (e ∷ es)
unfolding insert_sorted find
find-insert_sorted e [] absent j = refl
find-insert_sorted e (f ∷ fs) absent j = elim (Bool-cases (leb e.1.last_access f.1.last_access)) [
  | inl h ↦ rw h refl
  | inr h ↦
      let away = absent_tail e.0 f fs absent in
      let other = away.0 in
      rw h (
        ground (
          arith,
          find-insert_sorted e fs away.1 j,
          text_eq.same_iff j f.0,
          text_eq.same_iff j e.0,
          text_eq.same_iff e.0 f.0,
          other,
        ))
]

AreDistinct-insert_sorted :
    (e : Text × CacheItem) (es : Entries)
    → find e.0 es ≡ none
    → AreDistinct es
    → AreDistinct (insert_sorted e es)
unfolding insert_sorted
AreDistinct-insert_sorted e [] absent d = (absent, tt)
AreDistinct-insert_sorted e (f ∷ fs) absent d =
    elim (Bool-cases (leb e.1.last_access f.1.last_access)) [
      | inl h ↦ rw h (absent, d)
      | inr h ↦
          let away = absent_tail e.0 f fs absent in
          rw h (
            find-insert_sorted e fs away.1 f.0
                ∙ head_other f.0 e.0 e.1 fs (flip e.0 f.0 away.0)
                ∙ d.0,
            AreDistinct-insert_sorted e fs away.1 d.1,
          )
    ]

IsAscending-insert_sorted :
    (e : Text × CacheItem) (es : Entries)
    → find e.0 es ≡ none
    → IsAscending es
    → IsAscending (insert_sorted e es)
unfolding insert_sorted find
IsAscending-insert_sorted e [] absent a =
    (λ j other found. absurd (none-some other (sym found)), tt)
IsAscending-insert_sorted e (f ∷ fs) absent a =
    elim (Bool-cases (leb e.1.last_access f.1.last_access)) [
      | inl h ↦ rw h (
        λ j other found. elim (Bool-cases (j == f.0)) [
          | inl k ↦
              let same = some-injective f.1 other (sym (head_here j f.0 f.1 fs k) ∙ found) in
              rw (sym same) (ground (arith, h))
          | inr k ↦
              let later = a.0 j other (sym (head_other j f.0 f.1 fs k) ∙ found) in
              ground (arith, h, later)
        ],
        a,
      )
      | inr h ↦
          let away = absent_tail e.0 f fs absent in
          rw h (
            λ j other found. elim (Bool-cases (j == e.0)) [
              | inl k ↦
                  let same = some-injective e.1 other (
                    sym (head_here j e.0 e.1 fs k)
                    ∙ sym (find-insert_sorted e fs away.1 j)
                    ∙ found) in
                  rw (sym same) (ground (arith, h))
              | inr k ↦
                  a.0 j other (
                    sym (head_other j e.0 e.1 fs k)
                    ∙ sym (find-insert_sorted e fs away.1 j)
                    ∙ found)
            ],
            IsAscending-insert_sorted e fs away.1 a.1,
          )
    ]

-- The sorted entries are the entries, in the order of their last access.
pub record Sorted (es fs : Entries) : Type 0 where
  pub same_bytes : bytes_of fs ≡ bytes_of es
  pub same_entries : (j : Text) → find j fs ≡ find j es
  pub distinct : AreDistinct fs
  pub ascending : IsAscending fs

pub sort_entries-Sorted : (es : Entries) → AreDistinct es → Sorted es (sort_entries es)
unfolding sort_entries
sort_entries-Sorted [] d = record {
  same_bytes = refl;
  same_entries = λ j. refl;
  distinct = tt;
  ascending = tt;
}
sort_entries-Sorted (e ∷ es) d =
    let s = sort_entries-Sorted es d.1 in
    let absent : find e.0 (sort_entries es) ≡ none = s.same_entries e.0 ∙ d.0 in
    record {
      same_bytes =
          bytes_of-insert_sorted e (sort_entries es) ∙ ap (λ (n : ℕ). e.1.size + n) s.same_bytes;
      same_entries = λ j.
          find-insert_sorted e (sort_entries es) absent j
          ∙ find_cons j e (sort_entries es) es (s.same_entries j);
      distinct = AreDistinct-insert_sorted e (sort_entries es) absent s.distinct;
      ascending = IsAscending-insert_sorted e (sort_entries es) absent s.ascending;
    }
