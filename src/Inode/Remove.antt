-- ===== src/Inode/Remove.antt =====
-- src/virtual_fs/inode.rs: removals, unlinks and moves in the tree.
pub mod Sweep
pub mod Descendants
pub mod Orphan
pub mod Unlink
use hf_mount_encrypted.Base.{
  ℕ, zero, suc, ◌+◌, ◌-◌, ◌%◌, ◌^◌, Bool, true, false, ◌&&◌, not, Option, none, some, List, [], ◌∷◌,
  ◌++◌, ◌==◌, if◌then◌else◌, length,
}
use hf_mount_encrypted.Base.Eq.{number_eq, text_eq}
use hf_mount_encrypted.Base.Map.{find, erase, modify}
use hf_mount_encrypted.Inode.{
  Text, child_path, InodeKind, is_directory, DirChild, InodeEntry, add_child, remove_child_by_ino,
  remove_child_by_name,
}
use hf_mount_encrypted.Inode.Table.{InodeTable, get, update}

-- The parent's half of `detach_from_parent`; subtraction stops at 0 as `saturating_sub` does.
unfoldable pub detach : ℕ → InodeKind → Bool → InodeEntry → InodeEntry
detach child_ino child_kind invalidate parent =
    let rest = (remove_child_by_ino child_ino parent).0 in
    record rest {
      children_loaded_at = if invalidate then none else rest.children_loaded_at;
      nlink = if is_directory child_kind then rest.nlink - 1 else rest.nlink;
    }

unfoldable pub detach_from_parent : ℕ → ℕ → InodeKind → Bool → InodeTable → InodeTable
detach_from_parent parent_ino child_ino child_kind invalidate t =
    update parent_ino (detach child_ino child_kind invalidate) t

-- `stack.extend(children.iter().map(|c| c.ino))`; the top of the stack stands first.
unfoldable pub push_children : List DirChild → List ℕ → List ℕ
push_children [] stack = stack
push_children (c ∷ cs) stack = push_children cs (c.ino ∷ stack)

unfoldable pub erase_entry : ℕ → InodeEntry → InodeTable → InodeTable
erase_entry ino e t = record t {
  inodes = erase ino t.inodes;
  path_to_inode = erase e.full_path t.path_to_inode;
}

-- The stack loop of `remove`, `none` where the fuel runs out.
unfoldable pub sweep : ℕ → List ℕ → InodeTable → Option InodeTable
sweep fuel [] t = some t
sweep zero (ino ∷ stack) t = none
sweep (suc fuel) (ino ∷ stack) t = elim (get ino t) [
  | none ↦ sweep fuel stack t
  | some e ↦ sweep fuel (push_children e.children stack) (erase_entry ino e t)
]

-- The children of all entries: a bound of the rounds that the loop needs behind its first stack.
unfoldable pub all_children : List (ℕ × InodeEntry) → ℕ
all_children [] = 0
all_children ((_, e) ∷ rest) = length e.children + all_children rest

-- The outer `none` is the loop out of fuel, the inner one an unknown inode.
unfoldable pub remove : ℕ → InodeTable → Option (InodeTable × Option InodeEntry)
remove inode t = elim (get inode t) [
  | none ↦ some (t, none)
  | some e ↦
      elim (sweep (all_children t.inodes) (push_children e.children [])
        (detach_from_parent e.parent inode e.kind false (erase_entry inode e t))) [
          | none ↦ none
          | some swept ↦ some (swept, some e)
        ]
]

unfoldable pub drop_link : ℕ → InodeEntry → InodeEntry
drop_link now e = record e { nlink = e.nlink - 1; ctime = now }

-- What `unlink_one` does behind the look-up of the child.
unfoldable pub unlink_child :
    ℕ → Text → ℕ → Text → ℕ → InodeTable → InodeTable × Option (Bool × InodeEntry)
unlink_child parent name child_ino full_path now t =
    let detached = update parent (λ p. (remove_child_by_name name p).0) t in
    let unmapped = record detached { path_to_inode = erase full_path detached.path_to_inode } in
    elim (get child_ino unmapped) [
      | none ↦ (unmapped, none)
      | some e ↦ (
        update child_ino (drop_link now) unmapped,
        some ((drop_link now e).nlink == 0, drop_link now e),
      )
    ]

unfoldable pub unlink_one : ℕ → Text → ℕ → InodeTable → InodeTable × Option (Bool × InodeEntry)
unlink_one parent name now t = elim (get parent t) [
  | none ↦ (t, none)
  | some p ↦ elim (find name p.child_index) [
    | none ↦ (t, none)
    | some child_ino ↦ unlink_child parent name child_ino (child_path p.full_path name) now t
  ]
]

unfoldable pub add_link : InodeEntry → InodeEntry
add_link e = record e { nlink = (e.nlink + 1) % 2 ^ 32 }

unfoldable pub move_child : ℕ → ℕ → Text → ℕ → Text → InodeTable → InodeTable
move_child ino old_parent old_name new_parent new_name t =
    let is_dir : Bool = elim (get ino t) [ none ↦ false | some e ↦ is_directory e.kind ] in
    let detached = update old_parent (λ p. (remove_child_by_name old_name p).0) t in
    let attached = update new_parent (add_child ino new_name) detached in
    let linked =
      if is_dir && not (old_parent == new_parent)
      then update new_parent add_link
          (update old_parent (λ p. record p { nlink = p.nlink - 1 }) attached)
      else attached in
    update ino (λ e. record e { parent = new_parent; name = new_name }) linked

unfoldable pub touch_parent : ℕ → ℕ → InodeTable → InodeTable
touch_parent parent now t = update parent (λ p. record p { mtime = now; ctime = now }) t

-- The mapping of a path goes if it still points at the orphan.
unfoldable pub unmap_orphan : Text → ℕ → List (Text × ℕ) → List (Text × ℕ)
unmap_orphan path ino m = elim (find path m) [
  | none ↦ m
  | some target ↦ if target == ino then erase path m else m
]

unfoldable pub remove_orphan : ℕ → InodeTable → InodeTable × Bool
unfolding unmap_orphan
remove_orphan ino t = elim (get ino t) [
  | none ↦ (t, false)
  | some e ↦
      if e.nlink == 0
      then (
        record t {
          inodes = erase ino t.inodes;
          path_to_inode = unmap_orphan e.full_path ino t.path_to_inode;
        },
        true,
      )
      else (t, false)
]
