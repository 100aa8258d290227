-- ===== src/Inode/Tests.antt =====
-- Runs of src/virtual_fs/inode.rs, and its theorems at a concrete table.
use Prim.Native.Nat.{ℕ}
use hf_mount_encrypted.Base.{
  ◌≡◌, ◌≢◌, ◌-◌, ◌≤◌, ◌<◌, ◌+◌, ◌^◌, ◌⊎◌, refl, true, false, none, some, List, [], ◌∷◌, ◌==◌,
  if◌then◌else◌, arith, take, length, inr,
}
use hf_mount_encrypted.Base.Text.{bytes}
use hf_mount_encrypted.Base.Eq.{number_eq, text_eq}
use hf_mount_encrypted.Base.Word.{u64_max}
use hf_mount_encrypted.Base.Map.{find, erase, put, modify}
use hf_mount_encrypted.Inode.{
  child_path, Text, file, directory, InodeEntry, is_dirty, add_child, set_dirty, apply_commit,
  remove_child_by_ino, child_at, drop_child,
}
use hf_mount_encrypted.Inode.Table.{
  InodeTable, NewInode, new, insert, new_entry, attach, get, update, get_by_path, lookup_child,
  root_entry,
}
use hf_mount_encrypted.Inode.Table.Insert
use hf_mount_encrypted.Inode.Table.Insert.{IsFresh}
use hf_mount_encrypted.Inode.Commit
use hf_mount_encrypted.Inode.Commit.{write_times}
use hf_mount_encrypted.Inode.Evict.{
  evict_if_safe, evict_batch_if_safe, lru_candidates, mem, evict, is_safe, is_batch_safe,
  forget_child, group_eligible, group_eligible_one, group_insert, set_insert, evict_groups,
  evict_set, evict_member, drop_index, drop_listings, drop_listing, retain_others, Stamp, resolve,
  idle_stamps,
}
use hf_mount_encrypted.Inode.Evict.Batch
use hf_mount_encrypted.Inode.Evict.Batch.{ToEvict, IsEvicted, IsLeft}
use hf_mount_encrypted.Inode.Evict.Single
use hf_mount_encrypted.Inode.Evict.Oldest
use hf_mount_encrypted.Inode.Evict.Oldest.{IsAscending, count}
use hf_mount_encrypted.Inode.Remote.{
  nearest_dir_ancestor, ancestor_loop, parent_path, has_slash, get_dir_ino,
}
use hf_mount_encrypted.Inode.Remote.Ancestor
use hf_mount_encrypted.Inode.Remote.Paths.{IsAncestor}
use hf_mount_encrypted.Inode.Remote.Ancestor.{IsFound, IsNoDir}
use hf_mount_encrypted.Inode.Remote.Dirty
use hf_mount_encrypted.Inode.Remote.Dirty.{Change, merged, change_table, change_entry}
use hf_mount_encrypted.Inode.Remove.{
  unlink_one, remove, sweep, push_children, erase_entry, detach_from_parent, detach, all_children,
  remove_orphan, unmap_orphan,
}
use hf_mount_encrypted.Inode.Remove.Sweep
use hf_mount_encrypted.Inode.Remove.Descendants
use hf_mount_encrypted.Inode.Remove.Descendants.{is_child}
use hf_mount_encrypted.Inode.Remove.Orphan
use hf_mount_encrypted.Inode.Remove.Unlink

abbrev dir_args : NewInode
dir_args = record {
  parent = 1;
  name = bytes "d";
  full_path = bytes "d";
  kind = directory;
  size = 0;
  mtime = 5;
  xet_hash = none;
  mode = 493;
  uid = 7;
  gid = 7;
}

abbrev file_args : NewInode
file_args = record {
  parent = 2;
  name = bytes "f";
  full_path = bytes "d/f";
  kind = file;
  size = 9;
  mtime = 5;
  xet_hash = none;
  mode = 420;
  uid = 7;
  gid = 7;
}

-- A directory, and a file in it.
abbrev with_dir : InodeTable
with_dir = (insert dir_args 5 6 (new true)).0

abbrev with_file : InodeTable
with_file = (insert file_args 5 6 with_dir).0

abbrev dir_entry : InodeEntry
dir_entry = attach 3 file_args (new_entry dir_args 2 0 5 6)

abbrev file_entry : InodeEntry
file_entry = new_entry file_args 3 1 5 6

code : Unit {0}
unfolding insert new get update get_by_path lookup_child find erase put modify new_entry attach
    add_child is_dirty mem evict_batch_if_safe group_eligible group_eligible_one group_insert
    set_insert evict_groups evict_set evict_member drop_index drop_listings drop_listing
    retain_others is_batch_safe remove sweep push_children erase_entry detach_from_parent detach
    all_children remove_child_by_ino child_at drop_child remove_orphan unmap_orphan is_child
    evict_if_safe evict is_safe forget_child set_dirty
code = tt

found :
    (get 2 with_file ≡ some dir_entry)
    × (get 3 with_file ≡ some file_entry)
    × (lookup_child 2 (bytes "f") with_file ≡ some file_entry)
    × ((evict_if_safe 3 with_file).1 ≡ true)
    × ((evict_if_safe 2 with_file).1 ≡ false)
unfolding code
found = (refl, refl, refl, refl, refl)

new-IsFresh : IsFresh (new true)
unfolding code
new-IsFresh x above = ground (arith, above)

root_there :
    (get 1 (new true) ≡ some root_entry) × (find (bytes "d") (new true).path_to_inode ≡ none)
unfolding code
root_there = (refl, refl)

insert_new_example :
    ((insert dir_args 5 6 (new true)).1 ≡ (new true).next_inode)
    × (get_by_path (bytes "d") with_dir
        ≡ some (new_entry dir_args (new true).next_inode (new true).touch_counter 5 6))
    × (lookup_child 1 (bytes "d") with_dir
        ≡ some (new_entry dir_args (new true).next_inode (new true).touch_counter 5 6))
    × IsFresh with_dir
    × ((insert dir_args 5 9 with_dir).1 ≡ (insert dir_args 5 6 (new true)).1)
insert_new_example =
    Insert.insert_new dir_args dir_args 5 6 9 (new true) root_entry new-IsFresh root_there.0
      root_there.1 refl room
  where
    room : (new true).next_inode + 1 < 2 ^ 64
    room = unfold code in omega arith

evict_batch_if_safe_lem_example :
    ((e : InodeEntry) × ToEvict (3 ∷ 2 ∷ []) with_file 3 e
      × IsEvicted 3 e (evict_batch_if_safe (3 ∷ 2 ∷ []) with_file))
    ⊎ (¬ ((e : InodeEntry) × ToEvict (3 ∷ 2 ∷ []) with_file 3 e)
        × IsLeft 3 with_file (evict_batch_if_safe (3 ∷ 2 ∷ []) with_file))
evict_batch_if_safe_lem_example = Batch.evict_batch_if_safe_lem (3 ∷ 2 ∷ []) with_file 3

batch_evicts : mem 3 (evict_batch_if_safe (3 ∷ 2 ∷ []) with_file).1 ≡ true
unfolding code
batch_evicts = refl

lru_candidates_lem_example :
    (sorted : List Stamp) × IsAscending sorted
    × ((x : Stamp) → count x sorted ≡ count x (idle_stamps with_file.inodes))
    × (lru_candidates 4 with_file ≡ resolve with_file (take 4 sorted))
lru_candidates_lem_example = Oldest.lru_candidates_lem 4 with_file

-- An entry that one write made dirty.
abbrev dirty_entry : InodeEntry
dirty_entry = set_dirty file_entry

dirty_room : dirty_entry.dirty_generation + 2 < u64_max
unfolding code
dirty_room = omega arith

dirty_now : is_dirty dirty_entry ≡ true
unfolding code
dirty_now = refl

is_dirty-apply_commit_example :
    is_dirty
      (apply_commit (bytes "h") 9 dirty_entry.dirty_generation 7 8 (write_times 2 dirty_entry))
    ≡ (if 2 == 0 then false else true)
is_dirty-apply_commit_example =
    Commit.is_dirty-apply_commit dirty_entry 2 (bytes "h") 9 7 8 dirty_now dirty_room

abbrev grown : Change
grown = merged none (some 12) none

change_table_cases_example :
    ((e : InodeEntry) × (get 3 with_file ≡ some e)
      × (e.dirty_generation ≡ 0)
      × ((change_table grown 3 with_file).1 ≡ true)
      × (get 3 (change_table grown 3 with_file).0
          ≡ (if 3 == 3 then some (change_entry grown e) else get 3 with_file)))
    ⊎ ((change_table grown 3 with_file ≡ (with_file, false))
        × ((get 3 with_file ≡ none)
            ⊎ ((e : InodeEntry) × (get 3 with_file ≡ some e) × (e.dirty_generation ≢ 0))))
change_table_cases_example = Dirty.change_table_cases grown 3 3 with_file

remove_total_example : (swept : InodeTable) × (remove 2 with_file ≡ some (swept, get 2 with_file))
remove_total_example = Sweep.remove_total 2 with_file

-- The table behind the removal of the directory.
abbrev without_dir : InodeTable
without_dir = elim (remove 2 with_file) [ none ↦ with_file | some r ↦ r.0 ]

removed :
    (remove 2 with_file ≡ some (without_dir, some dir_entry))
    × (get 2 without_dir ≡ none)
    × (is_child 3 dir_entry.children ≡ true)
unfolding code
removed = (refl, refl, refl)

remove-is_child_example : (get 2 without_dir ≡ none) × (get 3 without_dir ≡ none)
remove-is_child_example =
    Descendants.remove-is_child 2 2 3 with_file without_dir dir_entry dir_entry removed.0 found.0
      removed.1 removed.2

-- An unlinked file whose path a new file has taken.
abbrev recreated : InodeTable
recreated = record with_file {
  inodes = modify 3 (λ e. record e { nlink = 0 }) with_file.inodes;
  path_to_inode = put (bytes "d/f") 4 with_file.path_to_inode;
}

abbrev four : ℕ
four = 4

taken : (find (bytes "d/f") recreated.path_to_inode ≡ some 4) × (four ≢ 3)
unfolding code
taken = (refl, λ e. omega (arith, e))

remove_orphan_lem_example :
    (find (bytes "d/f") (remove_orphan 3 recreated).0.path_to_inode ≡ some 4)
    × (((remove_orphan 3 recreated ≡ (recreated, false))
          × ((get 3 recreated ≡ none)
              ⊎ ((e : InodeEntry) × (get 3 recreated ≡ some e) × (e.nlink ≢ 0))))
        ⊎ (((remove_orphan 3 recreated).1 ≡ true)
            × ((e : InodeEntry) × (get 3 recreated ≡ some e) × (e.nlink ≡ 0))
            × (get 2 (remove_orphan 3 recreated).0 ≡ (if 3 == 2 then none else get 2 recreated))))
remove_orphan_lem_example = Orphan.remove_orphan_lem 3 2 4 (bytes "d/f") recreated taken.0 taken.1

abbrev three : ℕ
three = 3

listed : (find (bytes "f") dir_entry.child_index ≡ some 3) × (three ≢ 2)
unfolding code
listed = (refl, λ e. omega (arith, e))

unlink_one_lem_example :
    (lookup_child 2 (bytes "f") (unlink_one 2 (bytes "f") 9 with_file).0 ≡ none)
    × (find
          (child_path dir_entry.full_path (bytes "f"))
          (unlink_one 2 (bytes "f") 9 with_file).0.path_to_inode
        ≡ none)
    × (get 3 (unlink_one 2 (bytes "f") 9 with_file).0
        ≡ some (record file_entry { nlink = file_entry.nlink - 1; ctime = 9 }))
    × ((unlink_one 2 (bytes "f") 9 with_file).1
        ≡ some (
          file_entry.nlink - 1 == 0,
          record file_entry { nlink = file_entry.nlink - 1; ctime = 9 },
        ))
unlink_one_lem_example =
    Unlink.unlink_one_lem 2 3 9 (bytes "f") with_file dir_entry file_entry found.0 listed.0 found.1
      listed.1

nearest_dir_ancestor_lem_example :
    (dir_ino : ℕ) × (ancestor : Text) × (nearest_dir_ancestor (bytes "d/x/y") with_file
      ≡ some (dir_ino, ancestor))
    × IsFound with_file dir_ino ancestor
    × IsAncestor ancestor (bytes "d/x/y")
    × ((length (bytes "d/x") ≤ length ancestor) ⊎ IsNoDir with_file (bytes "d/x"))
nearest_dir_ancestor_lem_example =
    Ancestor.nearest_dir_ancestor_lem (bytes "d/x/y") with_file (bytes "d/x")
      (unfold IsAncestor in inr (bytes "y", refl))

nearest : nearest_dir_ancestor (bytes "d/x/y") with_file ≡ some (2, bytes "d")
unfolding code nearest_dir_ancestor ancestor_loop parent_path has_slash get_dir_ino
nearest = refl
