-- ===== src/Inode/Remote/Dirty.antt =====
-- A remote change leaves every file with unflushed data alone.
use Prim.Native.Nat.{ℕ}
use mathlib.Core.Option
use hf_mount_encrypted.Base.{
  ◌≡◌, refl, ◌∙◌, Bool, true, false, Option, none, some, ◌==◌, if◌then◌else◌, arith, Bool-cases,
  Option-cases, inl, inr, ◌⊎◌, ◌≢◌,
}
use hf_mount_encrypted.Base.Eq.{number_eq}
use hf_mount_encrypted.Base.Map.{find-modify}
use hf_mount_encrypted.Inode.{Text, InodeEntry, is_dirty}
use hf_mount_encrypted.Inode.Table.{InodeTable, get, update}
use hf_mount_encrypted.Inode.Remote.{
  RemoteFile, apply_remote, update_remote_file, merge_remote, merge_remote_file,
}

-- One of the two remote changes of an entry, and the operation on the table that makes it.
pub data Change : Type 0 where
  replaced : RemoteFile → Change
  merged : Option Text → Option ℕ → Option ℕ → Change

abbrev pub change_entry : Change → InodeEntry → InodeEntry
change_entry (replaced r) e = apply_remote r e
change_entry (merged hash size mtime) e = merge_remote hash size mtime e

abbrev pub change_table : Change → ℕ → InodeTable → InodeTable × Bool
change_table (replaced r) ino t = update_remote_file ino r t
change_table (merged hash size mtime) ino t = merge_remote_file ino hash size mtime t

-- Both operations are guarded alike.
change_table_lem :
    (c : Change) (ino : ℕ) (t : InodeTable) (e : InodeEntry)
    → get ino t ≡ some e
    → change_table c ino t
      ≡ (if is_dirty e then (t, false) else (update ino (change_entry c) t, true))
unfolding update_remote_file merge_remote_file
change_table_lem (replaced r) ino t e h = rw (h, update_remote_file) refl
change_table_lem (merged hash size mtime) ino t e h = rw (h, merge_remote_file) refl

change_table_missing :
    (c : Change) (ino : ℕ) (t : InodeTable) → get ino t ≡ none → change_table c ino t ≡ (t, false)
unfolding update_remote_file merge_remote_file
change_table_missing (replaced r) ino t h = rw (h, update_remote_file) refl
change_table_missing (merged hash size mtime) ino t h = rw (h, merge_remote_file) refl

pub get-update :
    (ino x : ℕ) (f : InodeEntry → InodeEntry) (t : InodeTable)
    → get x (update ino f t) ≡ (if ino == x then Option.map f (get x t) else get x t)
unfolding get update
get-update ino x f t = find-modify ino x f t.inodes

get_changed :
    (ino x : ℕ) (f : InodeEntry → InodeEntry) (t : InodeTable) (e : InodeEntry)
    → get ino t ≡ some e
    → get x (update ino f t) ≡ (if x == ino then some (f e) else get x t)
get_changed ino x f t e h = elim (Bool-cases (x == ino)) [
  | inl s ↦
      let same : x ≡ ino = ground (arith, s) in
      let back : (ino == x) ≡ true = ground (arith, s) in
      get-update ino x f t ∙ rw (back, s) (rw same (rw h refl))
  | inr s ↦
      let back : (ino == x) ≡ false = ground (arith, s) in get-update ino x f t ∙ rw (back, s) refl
]

-- A remote change reports true, changes the entry of its file and changes no other one, or it
-- reports false and changes nothing; the first where the file is in the table and has no unflushed
-- data, the second where it is not in the table or has unflushed data.
pub change_table_cases :
    (c : Change) (ino x : ℕ) (t : InodeTable)
    → ((e : InodeEntry) × (get ino t ≡ some e)
        × (e.dirty_generation ≡ 0)
        × ((change_table c ino t).1 ≡ true)
        × (get x (change_table c ino t).0
            ≡ (if x == ino then some (change_entry c e) else get x t)))
      ⊎ ((change_table c ino t ≡ (t, false))
          × ((get ino t ≡ none)
              ⊎ ((e : InodeEntry) × (get ino t ≡ some e) × (e.dirty_generation ≢ 0))))
change_table_cases c ino x t = elim (Option-cases (get ino t)) [
  | inl h ↦ inr (change_table_missing c ino t h, inl h)
  | inr (e, h) ↦ elim (Bool-cases (is_dirty e)) [
    | inl d ↦ inr (
      change_table_lem c ino t e h ∙ rw d refl,
      inr (e, h, λ z. (unfold is_dirty in ground (arith, d, z))),
    )
    | inr d ↦ inl (
      e,
      h,
      (unfold is_dirty in ground (arith, d)),
      rw (change_table_lem c ino t e h) (rw d refl),
      rw (change_table_lem c ino t e h) (rw d (get_changed ino x (change_entry c) t e h)),
    )
  ]
]
