-- ===== src/FileCache/Account.antt =====
-- The byte total of the index, under every operation.
use hf_mount_encrypted.Base.{
  ℕ, ◌+◌, ◌-◌, ◌<◌, ◌^◌, ◌≡◌, refl, sym, ap, ◌∙◌, Bool, true, false, Option, none, some, List, [],
  ◌∷◌, leb, if◌then◌else◌, arith, Bool-cases, inl, inr,
}
use mathlib.Core.Option
use hf_mount_encrypted.Base.Eq.{text_eq, ◌==◌, eq_of_same, same_refl}
use hf_mount_encrypted.Base.Map.{find, erase, put, modify, find-erase, find-modify}
use hf_mount_encrypted.FileCache.{
  Text, CacheItem, State, FileCache, remove_item, remove_items, evict_locked, insert_item, publish,
  forget, next_tick, total_without, touch, open_found, pick_victims, sort_entries,
}

abbrev pub Entries : Type 0
Entries = List (Text × CacheItem)

-- The bytes of the entries together.
abbrev pub bytes_of : Entries → ℕ
bytes_of [] = 0
bytes_of ((hash, item) ∷ es) = item.size + bytes_of es

-- No hash has two entries.
abbrev pub AreDistinct : Entries → Type 0
AreDistinct [] = Unit
AreDistinct ((hash, item) ∷ es) = (find hash es ≡ none) × AreDistinct es

-- The total is what the entries hold.
pub record Accounted (s : State) : Type 0 where
  pub distinct : AreDistinct s.items
  pub total : s.total_bytes ≡ bytes_of s.items

abbrev size_at : Option CacheItem → ℕ
size_at none = 0
size_at (some item) = item.size

module _ (hash j : Text) (item : CacheItem) (es : Entries) where
  pub head_here : (hash == j) ≡ true → find hash ((j, item) ∷ es) ≡ some item
  unfolding find
  head_here k = ap (λ (b : Bool). if b then some item else find hash es) k

  pub head_other : (hash == j) ≡ false → find hash ((j, item) ∷ es) ≡ find hash es
  unfolding find
  head_other k = ap (λ (b : Bool). if b then some item else find hash es) k

  erase_here : (hash == j) ≡ true → erase hash ((j, item) ∷ es) ≡ erase hash es
  unfolding erase
  erase_here k = ap (λ (b : Bool). if b then erase hash es else (j, item) ∷ erase hash es) k

  erase_other : (hash == j) ≡ false → erase hash ((j, item) ∷ es) ≡ (j, item) ∷ erase hash es
  unfolding erase
  erase_other k = ap (λ (b : Bool). if b then erase hash es else (j, item) ∷ erase hash es) k

pub none-some : (item : CacheItem) → some item ≡ none → ⊥
none-some item e = cc

erase_absent :
    (hash : Text) (es : Entries) → find hash es ≡ none → bytes_of (erase hash es) ≡ bytes_of es
unfolding erase
erase_absent hash [] h = refl
erase_absent hash ((j, item) ∷ es) h = elim (Bool-cases (hash == j)) [
  | inl k ↦ absurd (none-some item (sym (head_here hash j item es k) ∙ h))
  | inr k ↦
      ap bytes_of (erase_other hash j item es k)
      ∙ ap (λ (n : ℕ). item.size + n) (erase_absent hash es (sym (head_other hash j item es k) ∙ h))
]

-- Removing an entry takes its bytes away.
bytes_of-erase :
    (hash : Text) (es : Entries)
    → AreDistinct es
    → bytes_of es ≡ size_at (find hash es) + bytes_of (erase hash es)
unfolding find erase
bytes_of-erase hash [] d = refl
bytes_of-erase hash ((j, item) ∷ es) d = elim (Bool-cases (hash == j)) [
  | inl k ↦
      let gone : find hash es ≡ none = rw (eq_of_same hash j k) d.0 in
      let rest = erase_absent hash es gone in rw k (omega (arith, rest))
  | inr k ↦ rw k (omega (arith, bytes_of-erase hash es d.1))
]

AreDistinct-erase : (hash : Text) (es : Entries) → AreDistinct es → AreDistinct (erase hash es)
unfolding erase
AreDistinct-erase hash [] d = tt
AreDistinct-erase hash ((j, item) ∷ es) d = elim (Bool-cases (hash == j)) [
  | inl k ↦ rw k (AreDistinct-erase hash es d.1)
  | inr k ↦ rw k (
    find-erase hash j es ∙ ap (λ (b : Bool). if b then none else find j es) k ∙ d.0,
    AreDistinct-erase hash es d.1,
  )
]

total_without_lem : (o : Option CacheItem) (total : ℕ) → total_without o total ≡ total - size_at o
unfolding total_without
total_without_lem none total = omega arith
total_without_lem (some item) total = refl

pub remove_item-Accounted : (hash : Text) (s : State) → Accounted s → Accounted (remove_item hash s)
unfolding remove_item
remove_item-Accounted hash s a = record {
  distinct = AreDistinct-erase hash s.items a.distinct;
  total = omega (
    arith,
    bytes_of-erase hash s.items a.distinct,
    total_without_lem (find hash s.items) s.total_bytes,
    a.total,
  );
}

pub insert_item-Accounted :
    (hash : Text) (item : CacheItem) (s : State)
    → Accounted s
    → s.total_bytes + item.size < 2 ^ 64
    → Accounted (insert_item hash item s)
unfolding insert_item put
insert_item-Accounted hash item s a room = record {
  distinct = (
    find-erase hash hash s.items
        ∙ ap (λ (b : Bool). if b then none else find hash s.items) (same_refl hash),
    AreDistinct-erase hash s.items a.distinct,
  );
  total = omega (
    arith,
    bytes_of-erase hash s.items a.distinct,
    total_without_lem (find hash s.items) s.total_bytes,
    a.total,
    room,
  );
}

-- Changing the last access of an entry leaves the sizes alone.
bytes_of-modify :
    (hash : Text) (tick : ℕ) (es : Entries)
    → bytes_of (modify hash (λ item. record item { last_access = tick }) es) ≡ bytes_of es
unfolding modify
bytes_of-modify hash tick [] = refl
bytes_of-modify hash tick ((j, item) ∷ es) = elim (Bool-cases (hash == j)) [
  | inl k ↦ rw k (ap (λ (n : ℕ). item.size + n) (bytes_of-modify hash tick es))
  | inr k ↦ rw k (ap (λ (n : ℕ). item.size + n) (bytes_of-modify hash tick es))
]

cond_none :
    (b : Bool) (f : CacheItem → CacheItem) (o : Option CacheItem)
    → o ≡ none
    → (if b then Option.map f o else o) ≡ none
cond_none true f o e = ap (Option.map f) e
cond_none false f o e = e

AreDistinct-modify :
    (hash : Text) (f : CacheItem → CacheItem) (es : Entries)
    → AreDistinct es
    → AreDistinct (modify hash f es)
unfolding modify
AreDistinct-modify hash f [] d = tt
AreDistinct-modify hash f ((j, item) ∷ es) d = (
  find-modify hash j f es ∙ cond_none (hash == j) f (find j es) d.0,
  AreDistinct-modify hash f es d.1,
)

pub remove_items-Accounted :
    (victims : List Text) (s : State) → Accounted s → Accounted (remove_items victims s)
unfolding remove_items
remove_items-Accounted [] s a = a
remove_items-Accounted (hash ∷ victims) s a =
    remove_items-Accounted victims (remove_item hash s) (remove_item-Accounted hash s a)

evict_locked-Accounted :
    (capacity : ℕ) (s : State) → Accounted s → Accounted (evict_locked capacity s).0
unfolding evict_locked
evict_locked-Accounted capacity s a = elim (Bool-cases (leb s.total_bytes capacity)) [
  | inl h ↦ rw h a
  | inr h ↦
      rw h
        (remove_items-Accounted (pick_victims s.total_bytes capacity 0 (sort_entries s.items)) s a)
]

pub publish-Accounted :
    (hash : Text) (size : ℕ) (c : FileCache)
    → Accounted c.state
    → c.state.total_bytes + size < 2 ^ 64
    → Accounted (publish hash size c).0.state
unfolding publish next_tick
publish-Accounted hash size c a room =
    let item : CacheItem = record { size = size; last_access = c.clock } in
    evict_locked-Accounted c.capacity (insert_item hash item c.state)
      (insert_item-Accounted hash item c.state a room)

touch-Accounted : (hash : Text) (c : FileCache) → Accounted c.state → Accounted (touch hash c).state
unfolding touch next_tick
touch-Accounted hash c a = record {
  distinct = AreDistinct-modify hash _ c.state.items a.distinct;
  total = a.total ∙ sym (bytes_of-modify hash c.clock c.state.items);
}

pub open_found-Accounted :
    (o : Option CacheItem) (opens : Bool) (hash : Text) (c : FileCache)
    → Accounted c.state
    → Accounted (open_found o opens hash c).0.state
unfolding open_found forget
open_found-Accounted none opens hash c a = a
open_found-Accounted (some item) true hash c a = touch-Accounted hash c a
open_found-Accounted (some item) false hash c a =
    remove_item-Accounted hash (touch hash c).state (touch-Accounted hash c a)
