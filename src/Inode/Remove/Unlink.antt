-- ===== src/Inode/Remove/Unlink.antt =====
-- `unlink_one`: the name and its path go, and the file loses one link.
use hf_mount_encrypted.Base.{
  ℕ, ◌-◌, ◌≡◌, ◌≢◌, refl, ap, ◌∙◌, true, false, Option, none, some, ◌==◌, if◌then◌else◌, arith,
  Bool-cases, inl, inr,
}
use mathlib.Core.Option
use hf_mount_encrypted.Base.Eq.{number_eq, text_eq, same_refl}
use hf_mount_encrypted.Base.Map.{find, erase, find-erase, find-modify}
use hf_mount_encrypted.Inode.{Text, child_path, InodeEntry, remove_child_by_name, drop_child}
use hf_mount_encrypted.Inode.Table.{InodeTable, get, update, lookup_child}
use hf_mount_encrypted.Inode.Remove.{drop_link, unlink_child, unlink_one}

get-update :
    (ino x : ℕ) (f : InodeEntry → InodeEntry) (t : InodeTable)
    → get x (update ino f t) ≡ (if ino == x then Option.map f (get x t) else get x t)
unfolding get update
get-update ino x f t = find-modify ino x f t.inodes

module _ (parent ino now : ℕ) (name path : Text) (t : InodeTable) (p child : InodeEntry)
    (there : get parent t ≡ some p) (listed : find name p.child_index ≡ some ino)
    (target : get ino t ≡ some child) (apart : ino ≢ parent) where
  abbrev trimmed : InodeEntry → InodeEntry
  trimmed e = (remove_child_by_name name e).0

  -- The table without the name and the path.
  abbrev unmapped : InodeTable
  unmapped =
      let detached = update parent trimmed t in
      record detached { path_to_inode = erase path detached.path_to_inode }

  get-unmapped : (x : ℕ) → get x unmapped ≡ get x (update parent trimmed t)
  unfolding get
  get-unmapped x = refl

  other : (parent == ino) ≡ false
  other = elim (Bool-cases (parent == ino)) [
    | inl h ↦ absurd (apart (ground (arith, h)))
    | inr h ↦ h
  ]

  child_kept : get ino unmapped ≡ some child
  child_kept = get-unmapped ino ∙ get-update parent ino trimmed t ∙ rw other target

  unlinked : unlink_child parent name ino path now t ≡ (
    update ino (drop_link now) unmapped,
    some ((drop_link now child).nlink == 0, drop_link now child),
  )
  unfolding unlink_child
  unlinked = rw (child_kept, unlink_child) refl

  removed_name : remove_child_by_name name p ≡ (
    record p { children = drop_child ino p.children; child_index = erase name p.child_index },
    some ino,
  )
  unfolding remove_child_by_name
  removed_name = rw (listed, remove_child_by_name) refl

  parent_after : get parent (update ino (drop_link now) unmapped) ≡ some (trimmed p)
  parent_after =
      let differ : (ino == parent) ≡ false = elim (Bool-cases (ino == parent)) [
        | inl h ↦ absurd (apart (ground (arith, h)))
        | inr h ↦ h
      ] in
      let same : (parent == parent) ≡ true = ground arith in
      get-update ino parent (drop_link now) unmapped
      ∙ rw differ
          (get-unmapped parent ∙ get-update parent parent trimmed t ∙ rw same (rw there refl))

  child_after : get ino (update ino (drop_link now) unmapped) ≡ some (drop_link now child)
  child_after =
      let same : (ino == ino) ≡ true = ground arith in
      get-update ino ino (drop_link now) unmapped ∙ rw same (rw child_kept refl)

  no_name : find name (trimmed p).child_index ≡ none
  no_name =
      ap (λ (r : InodeEntry × Option ℕ). find name r.0.child_index) removed_name
      ∙ find-erase name name p.child_index
      ∙ rw (same_refl name) refl

  lookup_after : lookup_child parent name (update ino (drop_link now) unmapped) ≡ none
  unfolding lookup_child
  lookup_after = rw (parent_after, lookup_child) (rw no_name refl)

  path_after : find path (update ino (drop_link now) unmapped).path_to_inode ≡ none
  unfolding update
  path_after = find-erase path path t.path_to_inode ∙ rw (same_refl path) refl

-- Where `name` leads from `parent` to another inode of the table, behind `unlink_one` the name leads
-- nowhere and the path of the name is free; the inode is still in the table with one link less, also
-- where that was its last link, which the result says.
pub unlink_one_lem :
    (parent ino now : ℕ) (name : Text) (t : InodeTable) (p child : InodeEntry)
    (there : get parent t ≡ some p) (listed : find name p.child_index ≡ some ino)
    (target : get ino t ≡ some child) (apart : ino ≢ parent)
    → let r = unlink_one parent name now t in
      (lookup_child parent name r.0 ≡ none)
      × (find (child_path p.full_path name) r.0.path_to_inode ≡ none)
      × (get ino r.0 ≡ some (record child { nlink = child.nlink - 1; ctime = now }))
      × (r.1 ≡ some (child.nlink - 1 == 0, record child { nlink = child.nlink - 1; ctime = now }))
unfolding unlink_one drop_link
unlink_one_lem parent ino now name t p child there listed target apart =
    let path = child_path p.full_path name in
    let found : unlink_one parent name now t ≡ unlink_child parent name ino path now t =
      rw (there, unlink_one) (rw listed refl) in
    let e = found ∙ unlinked parent ino now name path t p child there listed target apart in
    rw e (
      lookup_after parent ino now name path t p child there listed target apart,
      path_after parent ino now name path t p child there listed target apart,
      child_after parent ino now name path t p child there listed target apart,
      refl,
    )
