-- ===== src/Inode/Table/Insert.antt =====
-- `insert`: a new inode is fresh, and the three ways to look it up find it.
use mathlib.Core.Option
use hf_mount_encrypted.Base.{
  ℕ, ◌+◌, ◌≤◌, ◌<◌, ◌^◌, ◌≡◌, refl, sym, ap, ◌∙◌, true, false, none, some, ◌==◌, if◌then◌else◌,
  arith, Bool-cases, inl, inr,
}
use hf_mount_encrypted.Base.Word.{add64}
use hf_mount_encrypted.Base.Eq.{number_eq, text_eq, same_refl}
use hf_mount_encrypted.Base.Map.{find, put, modify, find-put, find-modify}
use hf_mount_encrypted.Inode.{Text, InodeEntry, add_child, is_directory}
use hf_mount_encrypted.Inode.Table.{
  InodeTable, get, get_by_path, lookup_child, NewInode, new_entry, attach, insert,
}

-- No inode at or above the counter is in use.
abbrev pub IsFresh : InodeTable → Type 0
IsFresh t = (x : ℕ) → t.next_inode ≤ x → get x t ≡ none

-- What `insert` makes of a table without the path.
abbrev inserted : NewInode → ℕ → ℕ → InodeTable → InodeTable
inserted a now instant t = record t {
  next_inode = add64 t.next_inode 1;
  touch_counter = add64 t.touch_counter 1;
  inodes =
      modify a.parent (attach t.next_inode a)
        (put t.next_inode (new_entry a t.next_inode t.touch_counter now instant) t.inodes);
  path_to_inode = put a.full_path t.next_inode t.path_to_inode;
}

insert-inserted :
    (a : NewInode) (now instant : ℕ) (t : InodeTable)
    → find a.full_path t.path_to_inode ≡ none
    → insert a now instant t ≡ (inserted a now instant t, t.next_inode)
unfolding insert
insert-inserted a now instant t unmapped = rw (unmapped, insert) refl

get-inserted :
    (a : NewInode) (now instant x : ℕ) (t : InodeTable)
    → get x (inserted a now instant t) ≡ (
        if a.parent == x
        then Option.map (attach t.next_inode a) (
            find x
              (put t.next_inode (new_entry a t.next_inode t.touch_counter now instant) t.inodes))
        else find x
            (put t.next_inode (new_entry a t.next_inode t.touch_counter now instant) t.inodes))
unfolding get
get-inserted a now instant x t =
    find-modify a.parent x (attach t.next_inode a)
      (put t.next_inode (new_entry a t.next_inode t.touch_counter now instant) t.inodes)

-- An entry behind an insertion: the new one, the parent with its new child, or an old one.
get_at-inserted :
    (a : NewInode) (now instant x : ℕ) (t : InodeTable) (parent : InodeEntry)
    → IsFresh t
    → get a.parent t ≡ some parent
    → get x (inserted a now instant t) ≡ (
        if t.next_inode == x
        then some (new_entry a t.next_inode t.touch_counter now instant)
        else if a.parent == x
        then some (attach t.next_inode a parent)
        else get x t)
get_at-inserted a now instant x t parent fresh there =
    let unused : get t.next_inode t ≡ none = fresh t.next_inode (omega arith) in
    let made = new_entry a t.next_inode t.touch_counter now instant in
    let stored : find x (put t.next_inode made t.inodes)
        ≡ (if t.next_inode == x then some made else get x t) =
      (unfold get in find-put t.next_inode x made t.inodes) in
    get-inserted a now instant x t ∙ elim (Bool-cases (a.parent == x)) [
      | inl s ↦
          let same : a.parent ≡ x = ground (arith, s) in
          let here : get x t ≡ some parent = sym (ap (λ (i : ℕ). get i t) same) ∙ there in
          elim (Bool-cases (t.next_inode == x)) [
            | inl k ↦
                let both : t.next_inode ≡ x = ground (arith, k) in
                let clash : get x t ≡ none = sym (ap (λ (i : ℕ). get i t) both) ∙ unused in
                absurd (ground (arith, clash, here))
            | inr k ↦
                let old : find x (put t.next_inode made t.inodes) ≡ some parent =
                  stored ∙ rw k here in
                rw s (rw old (rw k refl))
          ]
      | inr s ↦ rw s stored
    ]

attach_index :
    (inode : ℕ) (a : NewInode) (p : InodeEntry)
    → (attach inode a p).child_index ≡ put a.name inode p.child_index
unfolding attach add_child
attach_index inode a p = elim (Bool-cases (is_directory a.kind)) [
  | inl h ↦ rw h refl
  | inr h ↦ rw h refl
]

module _ (a : NewInode) (now instant : ℕ) (t : InodeTable) (parent : InodeEntry) (fresh : IsFresh t)
    (there : get a.parent t ≡ some parent) where
  abbrev made : InodeEntry
  made = new_entry a t.next_inode t.touch_counter now instant

  get_new : get t.next_inode (inserted a now instant t) ≡ some made
  get_new =
      let same : (t.next_inode == t.next_inode) ≡ true = ground arith in
      get_at-inserted a now instant t.next_inode t parent fresh there ∙ rw same refl

  mapped_new : find a.full_path (inserted a now instant t).path_to_inode ≡ some t.next_inode
  mapped_new =
      find-put a.full_path a.full_path t.next_inode t.path_to_inode
      ∙ rw (same_refl a.full_path) refl

  get_by_path_new : get_by_path a.full_path (inserted a now instant t) ≡ some made
  unfolding get_by_path
  get_by_path_new = rw (mapped_new, get_by_path) get_new

  lookup_child_new : lookup_child a.parent a.name (inserted a now instant t) ≡ some made
  unfolding lookup_child
  lookup_child_new =
      let unused : get t.next_inode t ≡ none = fresh t.next_inode (omega arith) in
      let apart : (t.next_inode == a.parent) ≡ false =
        elim (Bool-cases (t.next_inode == a.parent)) [
          | inl k ↦
              let both : t.next_inode ≡ a.parent = ground (arith, k) in
              let clash : get a.parent t ≡ none = sym (ap (λ (i : ℕ). get i t) both) ∙ unused in
              absurd (ground (arith, clash, there))
          | inr k ↦ k
        ] in
      let same : (a.parent == a.parent) ≡ true = ground arith in
      let grown : get a.parent (inserted a now instant t) ≡ some (attach t.next_inode a parent) =
        get_at-inserted a now instant a.parent t parent fresh there ∙ rw apart (rw same refl) in
      let listed : find a.name (attach t.next_inode a parent).child_index ≡ some t.next_inode =
        ap (find a.name) (attach_index t.next_inode a parent)
        ∙ find-put a.name a.name t.next_inode parent.child_index
        ∙ rw (same_refl a.name) refl in
      rw (grown, lookup_child) (rw listed get_new)

  inserted-IsFresh : t.next_inode + 1 < 2 ^ 64 → IsFresh (inserted a now instant t)
  inserted-IsFresh room x above =
      let higher : t.next_inode + 1 ≤ x = omega (arith, above, room) in
      let apart : (t.next_inode == x) ≡ false = ground (arith, higher) in
      let old : get x t ≡ none = fresh x (omega (arith, higher)) in
      let other : (a.parent == x) ≡ false = elim (Bool-cases (a.parent == x)) [
        | inl k ↦
            let both : a.parent ≡ x = ground (arith, k) in
            let clash : get x t ≡ some parent = sym (ap (λ (i : ℕ). get i t) both) ∙ there in
            absurd (ground (arith, clash, old))
        | inr k ↦ k
      ] in
      get_at-inserted a now instant x t parent fresh there ∙ rw apart (rw other old)

insert_again :
    (b : NewInode) (now instant ino : ℕ) (t : InodeTable)
    → find b.full_path t.path_to_inode ≡ some ino
    → (insert b now instant t).1 ≡ ino
unfolding insert
insert_again b now instant ino t mapped = rw (mapped, insert) refl

-- Behind the `insert` of a new path under a parent of the table, in a table whose counter is above
-- all its inodes and not at its last value, the new inode is the old counter; its path and its
-- name under its parent lead to the new entry; the counter is above all inodes again; and a second
-- `insert` at the path gives the same inode.
pub insert_new :
    (a b : NewInode) (now instant later : ℕ) (t : InodeTable) (parent : InodeEntry)
    (fresh : IsFresh t) (there : get a.parent t ≡ some parent)
    (unmapped : find a.full_path t.path_to_inode ≡ none) (again : b.full_path ≡ a.full_path)
    (room : t.next_inode + 1 < 2 ^ 64)
    → let r = insert a now instant t in
      let made = new_entry a t.next_inode t.touch_counter now instant in
      (r.1 ≡ t.next_inode)
      × (get_by_path a.full_path r.0 ≡ some made)
      × (lookup_child a.parent a.name r.0 ≡ some made)
      × IsFresh r.0
      × ((insert b now later r.0).1 ≡ r.1)
insert_new a b now instant later t parent fresh there unmapped again room =
    let e = insert-inserted a now instant t unmapped in
    (
      rw e refl,
      rw e (get_by_path_new a now instant t parent fresh there),
      rw e (lookup_child_new a now instant t parent fresh there),
      rw e (inserted-IsFresh a now instant t parent fresh there room),
      rw e (
          insert_again b now later t.next_inode (inserted a now instant t) (
            ap (λ (p : Text). find p (inserted a now instant t).path_to_inode) again
            ∙ mapped_new a now instant t parent fresh there)),
    )
