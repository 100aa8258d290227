-- ===== src/Inode/Remove/Sweep.antt =====
-- The loop of `remove` always ends: each round takes an entry with its children or a stack cell.
use hf_mount_encrypted.Base.{
  ℕ, zero, suc, ◌+◌, ◌≤◌, ◌≡◌, refl, sym, ap, ◌∙◌, false, some, List, [], ◌∷◌, ◌==◌, arith,
  Bool-cases, Option-cases, inl, inr, length, ◌⊎◌,
}
use hf_mount_encrypted.Base.Eq.{number_eq}
use hf_mount_encrypted.Base.Map.{find, erase, modify}
use hf_mount_encrypted.Inode.{InodeEntry, DirChild, remove_child_by_ino, child_at, drop_child}
use hf_mount_encrypted.Inode.Table.{InodeTable, get, update}
use hf_mount_encrypted.Inode.Remove.{
  detach, detach_from_parent, push_children, erase_entry, sweep, all_children, remove,
}

length-push_children :
    (cs : List DirChild) (stack : List ℕ)
    → length (push_children cs stack) ≡ length cs + length stack
unfolding push_children
length-push_children [] stack = omega arith
length-push_children (c ∷ cs) stack = omega (arith, length-push_children cs (c.ino ∷ stack))

all_children-erase-le :
    (ino : ℕ) (l : List (ℕ × InodeEntry)) → all_children (erase ino l) ≤ all_children l
unfolding all_children erase
all_children-erase-le ino [] = omega arith
all_children-erase-le ino ((j, e) ∷ l) = elim (Bool-cases (ino == j)) [
  | inl h ↦ rw h (omega (arith, all_children-erase-le ino l))
  | inr h ↦ rw h (omega (arith, all_children-erase-le ino l))
]

all_children-erase :
    (ino : ℕ) (l : List (ℕ × InodeEntry)) (v : InodeEntry)
    → find ino l ≡ some v
    → length v.children + all_children (erase ino l) ≤ all_children l
unfolding all_children erase find
all_children-erase ino [] v found = absurd (ground (arith, found))
all_children-erase ino ((j, e) ∷ l) v found = elim (Bool-cases (ino == j)) [
  | inl h ↦
      let same : some e ≡ some v = sym (rw h refl) ∙ found in
      let it : length e.children ≡ length v.children = ap length {x = e.children} (cc) in
      rw h (omega (arith, all_children-erase-le ino l, it))
  | inr h ↦
      let later : find ino l ≡ some v = sym (rw h refl) ∙ found in
      rw h (omega (arith, all_children-erase ino l v later))
]

enough_fuel :
    (fuel ino : ℕ) (stack : List ℕ) (t : InodeTable) (e : InodeEntry)
    → get ino t ≡ some e
    → length (ino ∷ stack) + all_children t.inodes ≤ suc fuel
    → length (push_children e.children stack) + all_children (erase_entry ino e t).inodes ≤ fuel
unfolding get erase_entry
enough_fuel fuel ino stack t e h enough =
    omega
      (arith, length-push_children e.children stack, all_children-erase ino t.inodes e h, enough)

sweep_total :
    (fuel : ℕ) (stack : List ℕ) (t : InodeTable)
    → length stack + all_children t.inodes ≤ fuel
    → (swept : InodeTable) × (sweep fuel stack t ≡ some swept)
unfolding sweep
sweep_total fuel [] t enough = (t, refl)
sweep_total zero (ino ∷ stack) t enough = absurd (omega (arith, enough))
sweep_total (suc fuel) (ino ∷ stack) t enough = elim (Option-cases (get ino t)) [
  | inl h ↦ let r = sweep_total fuel stack t (omega (arith, enough)) in (r.0, rw (h, sweep) r.1)
  | inr (e, h) ↦
      let r =
        sweep_total fuel (push_children e.children stack) (erase_entry ino e t)
          (enough_fuel fuel ino stack t e h enough) in
      (r.0, rw (h, sweep) r.1)
]

length-drop_child-le : (ino : ℕ) (cs : List DirChild) → length (drop_child ino cs) ≤ length cs
unfolding drop_child
length-drop_child-le ino [] = omega arith
length-drop_child-le ino (c ∷ cs) = elim (Bool-cases (c.ino == ino)) [
  | inl h ↦ rw h (omega arith)
  | inr h ↦ rw h (omega (arith, length-drop_child-le ino cs))
]

-- What the parent keeps of its children.
pub detach-children :
    (ino : ℕ) (e v : InodeEntry)
    → ((detach ino e.kind false v).children ≡ v.children)
      ⊎ ((detach ino e.kind false v).children ≡ drop_child ino v.children)
unfolding detach remove_child_by_ino
detach-children ino e v = elim (Option-cases (child_at ino v.children)) [
  | inl h ↦ inl (rw (h, detach, remove_child_by_ino) refl)
  | inr (c, h) ↦ inr (rw (h, detach, remove_child_by_ino) refl)
]

length-detach-le :
    (ino : ℕ) (e v : InodeEntry) → length (detach ino e.kind false v).children ≤ length v.children
length-detach-le ino e v = elim (detach-children ino e v) [
  | inl h ↦ rw h (omega arith)
  | inr h ↦ rw h (length-drop_child-le ino v.children)
]

all_children-detach-le :
    (p ino : ℕ) (e : InodeEntry) (l : List (ℕ × InodeEntry))
    → all_children (modify p (detach ino e.kind false) l) ≤ all_children l
unfolding all_children modify
all_children-detach-le p ino e [] = omega arith
all_children-detach-le p ino e ((j, v) ∷ l) = elim (Bool-cases (p == j)) [
  | inl h ↦ rw h (omega (arith, length-detach-le ino e v, all_children-detach-le p ino e l))
  | inr h ↦ rw h (omega (arith, all_children-detach-le p ino e l))
]

-- `remove` always ends with a table, and hands out exactly the entry that `get` finds.
pub remove_total :
    (inode : ℕ) (t : InodeTable)
    → (swept : InodeTable) × (remove inode t ≡ some (swept, get inode t))
unfolding remove
remove_total inode t = elim (Option-cases (get inode t)) [
  | inl h ↦ (t, rw (h, remove) refl)
  | inr (e, h) ↦
      let start = detach_from_parent e.parent inode e.kind false (erase_entry inode e t) in
      let r = sweep_total (all_children t.inodes) (push_children e.children []) start (
        unfold get in
        unfold erase_entry in
        unfold detach_from_parent in
        unfold update in
        omega (
          arith,
          length-push_children e.children [],
          all_children-erase inode t.inodes e h,
          all_children-detach-le e.parent inode e (erase inode t.inodes),
        )) in
      (r.0, rw (h, remove) (rw r.1 refl))
]
