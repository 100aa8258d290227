-- ===== src/FileCache/Budget.antt =====
-- The cache under any sequence of its operations.
use hf_mount_encrypted.Base.{
  ℕ, ◌≤◌, ◌<◌, ◌^◌, ◌≡◌, refl, Bool, true, false, not, Option, none, some, List, [], ◌∷◌, ltb,
  arith, Bool-cases, Option-cases, inl, inr,
}
use hf_mount_encrypted.Base.Eq.{text_eq}
use hf_mount_encrypted.Base.Map.{find}
use hf_mount_encrypted.FileCache.{
  Text, CacheItem, State, FileCache, Disk, forget, try_open, open_found, touch, populate,
  populate_inner, finish, publish, next_tick, is_empty, is_other, too_large, contains, remove_item,
  total_without, insert_item,
}
use hf_mount_encrypted.FileCache.Account.{
  Accounted, open_found-Accounted, remove_item-Accounted, publish-Accounted, insert_item-Accounted,
}
use hf_mount_encrypted.FileCache.Evict.{evict_locked-fits}

-- A call of the cache, with what the disk and the network do in it.
pub data Call : Type 0 where
  open_file : Bool → Text → Call
  forget_file : Text → Call
  populate_file : Text → Option ℕ → Disk → Call

abbrev pub run_call : Call → FileCache → FileCache
run_call (open_file opens hash) c = (try_open opens hash c).0
run_call (forget_file hash) c = forget hash c
run_call (populate_file hash expected disk) c = (populate hash expected disk c).0

abbrev pub run_calls : List Call → FileCache → FileCache
run_calls [] c = c
run_calls (k ∷ ks) c = run_calls ks (run_call k c)

-- The total is right, no hash is there twice, and neither the total nor the capacity is above the
-- ceiling.
pub record InBudget (ceiling : ℕ) (c : FileCache) : Type 0 where
  pub accounted : Accounted c.state
  pub total_below : c.state.total_bytes ≤ ceiling
  pub capacity_below : c.capacity ≤ ceiling

total_without-le : (o : Option CacheItem) (total : ℕ) → total_without o total ≤ total
unfolding total_without
total_without-le none total = omega arith
total_without-le (some item) total = omega arith

insert_item-bounded :
    (hash : Text) (item : CacheItem) (s : State) → (insert_item hash item s).total_bytes < 2 ^ 64
unfolding insert_item
insert_item-bounded hash item s = omega arith

module _ (ceiling : ℕ) (room : ceiling < 2 ^ 63) where
  forget-InBudget :
      (hash : Text) (c : FileCache) → InBudget ceiling c → InBudget ceiling (forget hash c)
  unfolding forget remove_item
  forget-InBudget hash c b = record {
    accounted = remove_item-Accounted hash c.state b.accounted;
    total_below =
        omega
          (arith, total_without-le (find hash c.state.items) c.state.total_bytes, b.total_below);
    capacity_below = b.capacity_below;
  }

  open_found-total :
      (o : Option CacheItem) (opens : Bool) (hash : Text) (c : FileCache)
      → ((open_found o opens hash c).0.state.total_bytes ≤ c.state.total_bytes)
        × ((open_found o opens hash c).0.capacity ≡ c.capacity)
  unfolding open_found touch next_tick forget remove_item
  open_found-total none opens hash c = (omega arith, refl)
  open_found-total (some item) true hash c = (omega arith, refl)
  open_found-total (some item) false hash c =
      (total_without-le (find hash (touch hash c).state.items) c.state.total_bytes, refl)

  try_open-InBudget :
      (opens : Bool) (hash : Text) (c : FileCache)
      → InBudget ceiling c
      → InBudget ceiling (try_open opens hash c).0
  unfolding try_open
  try_open-InBudget opens hash c b =
      let o = find hash c.state.items in
      let kept = open_found-total o opens hash c in
      elim (Bool-cases (is_empty hash)) [
        | inl h ↦ rw h b
        | inr h ↦ rw h (record {
          accounted = open_found-Accounted o opens hash c b.accounted;
          total_below = omega (arith, kept.0, b.total_below);
          capacity_below = omega (arith, kept.1, b.capacity_below);
        })
      ]

  publish-InBudget :
      (hash : Text) (size : ℕ) (c : FileCache)
      → size ≤ c.capacity
      → InBudget ceiling c
      → InBudget ceiling (publish hash size c).0
  unfolding publish next_tick
  publish-InBudget hash size c small b =
      let item : CacheItem = record { size = size; last_access = c.clock } in
      let inserted =
        insert_item-Accounted hash item c.state b.accounted
          (omega (arith, b.total_below, b.capacity_below, small, room)) in
      let fits =
        evict_locked-fits c.capacity (insert_item hash item c.state) inserted
          (insert_item-bounded hash item c.state) in
      record {
        accounted =
            publish-Accounted hash size c b.accounted
              (omega (arith, b.total_below, b.capacity_below, small, room));
        total_below = omega (arith, fits, b.capacity_below);
        capacity_below = b.capacity_below;
      }

  finish-InBudget :
      (hash : Text) (expected : Option ℕ) (disk : Disk) (actual : ℕ) (c : FileCache)
      → InBudget ceiling c
      → InBudget ceiling (finish hash expected disk actual c).0
  unfolding finish
  finish-InBudget hash expected disk actual c b = elim (Bool-cases (is_other expected actual)) [
    | inl h ↦ rw h b
    | inr h ↦ elim (Bool-cases (ltb c.capacity actual)) [
      | inl k ↦ rw (h, k) b
      | inr k ↦ elim (Bool-cases disk.renamed) [
        | inl e ↦ rw (h, k, e) (publish-InBudget hash actual c (ground (arith, k)) b)
        | inr e ↦ rw (h, k, e) b
      ]
    ]
  ]

  populate-InBudget :
      (hash : Text) (expected : Option ℕ) (disk : Disk) (c : FileCache)
      → InBudget ceiling c
      → InBudget ceiling (populate hash expected disk c).0
  unfolding populate populate_inner
  populate-InBudget hash expected disk c b = elim (Bool-cases (is_empty hash)) [
    | inl h ↦ rw h b
    | inr h ↦ elim (Bool-cases (too_large expected c.capacity)) [
      | inl k ↦ rw (h, k) b
      | inr k ↦ elim (Bool-cases (contains hash c)) [
        | inl e ↦ rw (h, k, e) b
        | inr e ↦
            rw (h, k, e)
              (elim (Bool-cases (not disk.mkdir)) [
                | inl m ↦ rw m b
                | inr m ↦ elim (Bool-cases (not disk.fetched)) [
                  | inl f ↦ rw (m, f) b
                  | inr f ↦ elim (Option-cases disk.stat) [
                    | inl n ↦ rw (m, f) (rw n b)
                    | inr (actual, n) ↦
                        rw (m, f) (rw n (finish-InBudget hash expected disk actual c b))
                  ]
                ]
              ])
      ]
    ]
  ]

  run_call-InBudget :
      (k : Call) (c : FileCache) → InBudget ceiling c → InBudget ceiling (run_call k c)
  run_call-InBudget (open_file opens hash) c b = try_open-InBudget opens hash c b
  run_call-InBudget (forget_file hash) c b = forget-InBudget hash c b
  run_call-InBudget (populate_file hash expected disk) c b =
      populate-InBudget hash expected disk c b

  -- Whatever calls are made, and whatever the disk and the network do: the total stays the sum of the
  -- sizes, no hash gets a second entry, and no ceiling below 2 ^ 63 that the total and the capacity were
  -- under is passed. With the capacity as the ceiling: a cache that fits stays within its capacity.
  pub run_calls-InBudget :
      (calls : List Call) (c : FileCache)
      → InBudget ceiling c
      → InBudget ceiling (run_calls calls c)
  run_calls-InBudget [] c b = b
  run_calls-InBudget (k ∷ calls) c b =
      run_calls-InBudget calls (run_call k c) (run_call-InBudget k c b)
