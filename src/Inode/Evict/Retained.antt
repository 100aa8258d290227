-- ===== src/Inode/Evict/Retained.antt =====
-- The last loop of `evict_batch_if_safe`: the listings of the parents lose the evicted entries.
use hf_mount_encrypted.Base.{
  ℕ, ◌≡◌, refl, true, none, some, List, [], ◌∷◌, ◌==◌, arith, Bool-cases, Option-cases, inl, inr,
}
use hf_mount_encrypted.Base.Eq.{number_eq, text_eq, same_refl}
use hf_mount_encrypted.Base.Map.{find, modify, find-modify}
use hf_mount_encrypted.Inode.{InodeEntry, Text, DirChild, child_at}
use hf_mount_encrypted.Inode.Table.{InodeTable, get, update}
use hf_mount_encrypted.Inode.Evict.{mem, retain_others, drop_listing, drop_listings}
use hf_mount_encrypted.Inode.Evict.Groups.{grouped}
use hf_mount_encrypted.Inode.Evict.Parents.{OnlyIn}
use hf_mount_encrypted.Inode.Evict.Unlisted.{OfEntry, Unnamed, OfEntry-find-modify}

-- The directory does not list the inode, neither under the name, and its listing is not complete.
abbrev pub Unlists : ℕ → Text → InodeEntry → Type 0
Unlists x name e =
    (child_at x e.children ≡ none)
    × (find name e.child_index ≡ none)
    × (e.children_loaded_at ≡ none)

retain_others-gone :
    (x : ℕ) (s : List ℕ) (cs : List DirChild)
    → mem x s ≡ true
    → child_at x (retain_others s cs) ≡ none
unfolding retain_others child_at
retain_others-gone x s [] member = refl
retain_others-gone x s (c ∷ cs) member =
    let rest = retain_others-gone x s cs member in
    elim (Bool-cases (c.ino == x)) [
      | inl h ↦
          let same : c.ino ≡ x = ground (arith, h) in
          let held : mem c.ino s ≡ true = rw same member in rw held rest
      | inr h ↦ elim (Bool-cases (mem c.ino s)) [ inl k ↦ rw k rest | inr k ↦ rw k (rw h rest) ]
    ]

retain_others-none :
    (x : ℕ) (s : List ℕ) (cs : List DirChild)
    → child_at x cs ≡ none
    → child_at x (retain_others s cs) ≡ none
unfolding retain_others child_at
retain_others-none x s [] h = refl
retain_others-none x s (c ∷ cs) h = elim (Bool-cases (c.ino == x)) [
  | inl k ↦ let found : some c ≡ none = rw k at h in cc
  | inr k ↦
      let rest = retain_others-none x s cs (rw k at h) in
      elim (Bool-cases (mem c.ino s)) [ inl l ↦ rw l rest | inr l ↦ rw l (rw k rest) ]
]

drop_listing-Unlists :
    (x : ℕ) (name : Text) (s : List ℕ) (e : InodeEntry)
    → Unlists x name e
    → Unlists x name (drop_listing s e)
unfolding drop_listing
drop_listing-Unlists x name s e h = (retain_others-none x s e.children h.0, h.1, refl)

drop_listing-gone :
    (x : ℕ) (name : Text) (s : List ℕ) (e : InodeEntry)
    → mem x s ≡ true
    → Unnamed name e
    → Unlists x name (drop_listing s e)
unfolding drop_listing
drop_listing-gone x name s e member h = (retain_others-gone x s e.children member, h, refl)

drop_listing-Unnamed :
    (name : Text) (s : List ℕ) (e : InodeEntry) → Unnamed name e → Unnamed name (drop_listing s e)
unfolding drop_listing
drop_listing-Unnamed name s e h = h

-- A write at `q` that turns what holds there.
OfEntry-find-turn :
    (P Q : InodeEntry → Type 0) (q : ℕ) (f : InodeEntry → InodeEntry) (l : List (ℕ × InodeEntry))
    → ((e : InodeEntry) → P e → Q (f e))
    → OfEntry P (find q l)
    → OfEntry Q (find q (modify q f l))
OfEntry-find-turn P Q q f l turns h = rw (find-modify q q f l) (
    rw (same_refl q) (elim (Option-cases (find q l)) [
      | inl e ↦ rw e tt
      | inr (w, e) ↦ rw e (turns w (rw e at h))
    ]))

module _ (x q : ℕ) (name : Text) where
  drop_listings-stays :
      (groups : List (ℕ × List ℕ)) (t : InodeTable)
      → OfEntry (Unlists x name) (get q t)
      → OfEntry (Unlists x name) (get q (drop_listings groups t))
  unfolding drop_listings get update
  drop_listings-stays [] t h = h
  drop_listings-stays ((p, s) ∷ groups) t h =
      drop_listings-stays groups (update p (drop_listing s) t) (
        OfEntry-find-modify (Unlists x name) q p (drop_listing s) t.inodes
          (drop_listing-Unlists x name s) h)

  pub drop_listings-Unlists :
      (groups : List (ℕ × List ℕ)) (t : InodeTable)
      → OnlyIn q x groups
      → grouped x groups ≡ true
      → OfEntry (Unnamed name) (get q t)
      → OfEntry (Unlists x name) (get q (drop_listings groups t))
  unfolding drop_listings grouped get update
  drop_listings-Unlists [] t only member h = cc
  drop_listings-Unlists ((p, s) ∷ groups) t only member h = elim (Bool-cases (mem x s)) [
    | inl k ↦
        let own : p ≡ q = only.0 k in
        drop_listings-stays groups (update p (drop_listing s) t) (
          rw own (
            OfEntry-find-turn (Unnamed name) (Unlists x name) q (drop_listing s) t.inodes
              (λ e. drop_listing-gone x name s e k) h))
    | inr k ↦
        drop_listings-Unlists groups (update p (drop_listing s) t) only.1
          (ground (arith, member, k))
          (OfEntry-find-modify (Unnamed name) q p (drop_listing s) t.inodes
            (drop_listing-Unnamed name s) h)
  ]
