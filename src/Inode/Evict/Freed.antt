-- ===== src/Inode/Evict/Freed.antt =====
-- The evictions of `evict_batch_if_safe` free the paths of the evicted entries.
use hf_mount_encrypted.Base.{
  ℕ, ◌≡◌, refl, ◌∙◌, true, none, some, Option, List, [], ◌∷◌, arith, Option-cases, inl, inr,
}
use hf_mount_encrypted.Base.Eq.{number_eq, text_eq, same_refl}
use hf_mount_encrypted.Base.Map.{find, find-erase}
use hf_mount_encrypted.Inode.{InodeEntry, Text}
use hf_mount_encrypted.Inode.Table.{InodeTable, get, update}
use hf_mount_encrypted.Inode.Evict.{evict_member, evict_groups, drop_listing, drop_listings}
use hf_mount_encrypted.Inode.Evict.Lasting.{evict_groups-makes}
use hf_mount_encrypted.Inode.Evict.Parents.{OnlyIn}
use hf_mount_encrypted.Inode.Evict.Groups.{grouped}
use hf_mount_encrypted.Inode.Evict.Listing.{bare, bare_at, bare_at-none, bare_at-some}

-- The path leads to no inode.
abbrev pub IsFree : Text → InodeTable → Type 0
IsFree q t = find q t.path_to_inode ≡ none

evict_member-IsFree :
    (q : Text) (p i : ℕ) (t : InodeTable) → IsFree q t → IsFree q (evict_member p i t).0
unfolding evict_member
evict_member-IsFree q p i t free = elim (Option-cases (get i t)) [
  | inl e ↦ rw (e, evict_member) free
  | inr (v, e) ↦
      rw (e, evict_member) (find-erase v.full_path q t.path_to_inode ∙ rw free (ground arith))
]

some_path :
    (o : Option InodeEntry) (v w : InodeEntry)
    → o ≡ some (bare v)
    → o ≡ some (bare w)
    → v.full_path ≡ w.full_path
unfolding bare
some_path o v w h k = cc

evict_member-frees :
    (p i : ℕ) (t : InodeTable) (v : InodeEntry)
    → bare_at t i ≡ some (bare v)
    → IsFree v.full_path (evict_member p i t).0
unfolding evict_member
evict_member-frees p i t v there = elim (Option-cases (get i t)) [
  | inl e ↦ let gone = bare_at-none t i e in cc
  | inr (w, e) ↦
      let same = some_path (bare_at t i) v w there (bare_at-some t i w e) in
      rw (e, evict_member)
        (rw same
          (find-erase w.full_path w.full_path t.path_to_inode ∙ rw (same_refl w.full_path) refl))
]

pub evict_groups-frees :
    (x : ℕ) (v : InodeEntry) (groups : List (ℕ × List ℕ)) (t : InodeTable)
    → OnlyIn v.parent x groups
    → grouped x groups ≡ true
    → bare_at t x ≡ some (bare v)
    → IsFree v.full_path (evict_groups groups t).0
evict_groups-frees x v =
    evict_groups-makes (IsFree v.full_path) x v.parent v (evict_member-IsFree v.full_path)
      (λ t there. evict_member-frees v.parent x t v there)

pub drop_listings-IsFree :
    (q : Text) (groups : List (ℕ × List ℕ)) (t : InodeTable)
    → IsFree q t
    → IsFree q (drop_listings groups t)
unfolding drop_listings update
drop_listings-IsFree q [] t free = free
drop_listings-IsFree q ((p, s) ∷ groups) t free =
    drop_listings-IsFree q groups (update p (drop_listing s) t) free
