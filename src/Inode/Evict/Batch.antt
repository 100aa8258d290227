-- ===== src/Inode/Evict/Batch.antt =====
-- `evict_batch_if_safe`: which entries it takes out of the table, and what it leaves of the others.
use hf_mount_encrypted.Base.{
  ℕ, ◌≡◌, ◌⊎◌, refl, sym, ◌∙◌, true, false, ◌&&◌, none, some, List, [], arith, Bool-cases,
  Option-cases, true-false, inl, inr,
}
use hf_mount_encrypted.Inode.{InodeEntry}
use hf_mount_encrypted.Inode.Table.{InodeTable, get}
use hf_mount_encrypted.Inode.Evict.{
  mem, group_eligible, is_batch_safe, evict_groups, evict_batch_if_safe,
}
use hf_mount_encrypted.Inode.Evict.Freed.{IsFree, evict_groups-frees, drop_listings-IsFree}
use hf_mount_encrypted.Inode.Evict.Groups.{grouped, grouped-group_eligible, is_victim}
use hf_mount_encrypted.Inode.Evict.Listing.{
  bare_at, bare_at-some, IsEvictable, is_batch_safe-IsEvictable, IsEvictable-is_batch_safe,
}
use hf_mount_encrypted.Inode.Evict.Parents.{OnlyIn-group_eligible}
use hf_mount_encrypted.Inode.Evict.Retained.{Unlists, drop_listings-Unlists}
use hf_mount_encrypted.Inode.Evict.Unlisted.{OfEntry, evict_groups-unnames}
use hf_mount_encrypted.Inode.Evict.Outcomes.{evict_groups_lem, bare_at-drop_listings}

-- The inode was asked for, and its entry may go.
abbrev pub ToEvict : List ℕ → InodeTable → ℕ → InodeEntry → Type 0
ToEvict inos t x e = (mem x inos ≡ true) × (get x t ≡ some e) × IsEvictable e

-- The inode is reported and not in the table, the path of its entry is free, and the parent of the
-- entry, where there is one, does not list it, neither among the children nor under its name, and
-- counts as not loaded.
abbrev pub IsEvicted : ℕ → InodeEntry → InodeTable × List ℕ → Type 0
IsEvicted x e r =
    (mem x r.1 ≡ true)
    × (get x r.0 ≡ none)
    × IsFree e.full_path r.0
    × OfEntry (Unlists x e.name) (get e.parent r.0)

-- The inode is not reported, and keeps everything but its listing.
abbrev pub IsLeft : ℕ → InodeTable → InodeTable × List ℕ → Type 0
IsLeft x t r = (mem x r.1 ≡ false) × (bare_at r.0 x ≡ bare_at t x)

is_victim_lem :
    (t : InodeTable) (x : ℕ)
    → is_victim t x ≡ true
    → (e : InodeEntry) × (get x t ≡ some e) × IsEvictable e
unfolding is_victim
is_victim_lem t x victim = elim (Option-cases (get x t)) [
  | inl h ↦
      let gone : is_victim t x ≡ false = rw (h, is_victim) refl in
      absurd (true-false (sym victim ∙ gone))
  | inr (e, h) ↦
      let same : is_victim t x ≡ is_batch_safe e = rw (h, is_victim) refl in
      (e, h, is_batch_safe-IsEvictable e (sym same ∙ victim))
]

ToEvict-is_victim :
    (inos : List ℕ) (t : InodeTable) (x : ℕ) (e : InodeEntry)
    → ToEvict inos t x e
    → (mem x inos && is_victim t x) ≡ true
unfolding is_victim
ToEvict-is_victim inos t x e (asked, there, evictable) =
    rw (there, is_victim) (ground (arith, asked, IsEvictable-is_batch_safe e evictable))

bare_at-gone : (t : InodeTable) (x : ℕ) → bare_at t x ≡ none → get x t ≡ none
bare_at-gone t x gone = elim (Option-cases (get x t)) [
  | inl h ↦ h
  | inr (e, h) ↦ let there = bare_at-some t x e h in cc
]

-- `evict_batch_if_safe` evicts of the inodes that it is given exactly those whose entry is a linked
-- regular file with no unflushed data, no pending rename, no reference of the kernel and no open file
-- handle: it reports the inode, the table lacks it, the path of the entry is free, and the parent of
-- the entry, where it is in the table, has neither the inode among its children nor the name in its
-- index, and counts as not loaded. An inode that it does not evict is not reported, and its entry
-- keeps everything but its own listing (`children`, `child_index`, `children_loaded_at`).
pub evict_batch_if_safe_lem :
    (inos : List ℕ) (t : InodeTable) (x : ℕ)
    → ((e : InodeEntry) × ToEvict inos t x e × IsEvicted x e (evict_batch_if_safe inos t))
      ⊎ (¬ ((e : InodeEntry) × ToEvict inos t x e) × IsLeft x t (evict_batch_if_safe inos t))
unfolding evict_batch_if_safe
evict_batch_if_safe_lem inos t x =
    let groups = group_eligible t inos [] in
    let which : grouped x groups ≡ (mem x inos && is_victim t x) =
      (unfold grouped in grouped-group_eligible t x inos []) in
    let outcome = evict_groups_lem x groups t in
    let rest = bare_at-drop_listings x groups (evict_groups groups t).0 in
    elim (Bool-cases (mem x inos && is_victim t x)) [
      | inl h ↦
          let (e, there, evictable) = is_victim_lem t x (ground (arith, h)) in
          let chosen = which ∙ h in
          let kept = bare_at-some t x e there in
          let only = OnlyIn-group_eligible t x e there inos [] tt in
          let evicted = (evict_groups groups t).0 in
          inl (
            e,
            (ground (arith, h), there, evictable),
            (
              outcome.1 ∙ rw (chosen, kept) refl,
              bare_at-gone _ x (rest ∙ outcome.0 ∙ rw chosen refl),
              drop_listings-IsFree e.full_path groups evicted
                  (evict_groups-frees x e groups t only chosen kept),
              drop_listings-Unlists x e.parent e.name groups evicted only chosen
                  (evict_groups-unnames x e groups t only chosen kept),
            ),
          )
      | inr h ↦
          let passed = which ∙ h in
          inr (
            λ (e, asked). true-false (sym (ToEvict-is_victim inos t x e asked) ∙ h),
            (outcome.1 ∙ rw passed refl, rest ∙ outcome.0 ∙ rw passed refl),
          )
    ]
