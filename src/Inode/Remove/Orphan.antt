-- ===== src/Inode/Remove/Orphan.antt =====
-- `remove_orphan`: a file that was recreated at the path of an orphan keeps its mapping.
use hf_mount_encrypted.Base.{
  ℕ, ◌≡◌, refl, sym, ap, ◌∙◌, true, false, none, some, List, ◌==◌, if◌then◌else◌, arith, Bool-cases,
  Option-cases, inl, inr, ◌⊎◌, ◌≢◌,
}
use hf_mount_encrypted.Base.Eq.{number_eq, text_eq, text_same, eq_of_same}
use hf_mount_encrypted.Base.Map.{find, find-erase}
use hf_mount_encrypted.Inode.{Text, InodeEntry}
use hf_mount_encrypted.Inode.Table.{InodeTable, get}
use hf_mount_encrypted.Inode.Remove.{unmap_orphan, remove_orphan}

-- Only mappings to the orphan go.
unmap_orphan_lem :
    (path other : Text) (ino target : ℕ) (m : List (Text × ℕ))
    → find other m ≡ some target
    → target ≢ ino
    → find other (unmap_orphan path ino m) ≡ some target
unfolding unmap_orphan
unmap_orphan_lem path other ino target m mapped elsewhere = elim (Option-cases (find path m)) [
  | inl h ↦ rw (h, unmap_orphan) mapped
  | inr (v, h) ↦ elim (Bool-cases (v == ino)) [
    | inl s ↦ elim (Bool-cases (text_same path other)) [
      | inl k ↦
          let same : path ≡ other = eq_of_same path other k in
          let both : find other m ≡ some v = sym (ap (λ (q : Text). find q m) same) ∙ h in
          let hit : target ≡ v = cc in absurd (elsewhere (hit ∙ ground (arith, s)))
      | inr k ↦ rw (h, unmap_orphan) (rw s (find-erase path other m ∙ rw k mapped))
    ]
    | inr s ↦ rw (h, unmap_orphan) (rw s mapped)
  ]
]

-- `remove_orphan` reports true exactly if the inode is in the table and has no link; then this
-- entry goes and every other one stays, and a path that is mapped to another inode keeps its
-- mapping, also if it is the path of the orphan.
pub remove_orphan_lem :
    (ino x target : ℕ) (path : Text) (t : InodeTable)
    (mapped : find path t.path_to_inode ≡ some target) (elsewhere : target ≢ ino)
    → (find path (remove_orphan ino t).0.path_to_inode ≡ some target)
      × (((remove_orphan ino t ≡ (t, false))
            × ((get ino t ≡ none) ⊎ ((e : InodeEntry) × (get ino t ≡ some e) × (e.nlink ≢ 0))))
          ⊎ (((remove_orphan ino t).1 ≡ true)
              × ((e : InodeEntry) × (get ino t ≡ some e) × (e.nlink ≡ 0))
              × (get x (remove_orphan ino t).0 ≡ (if ino == x then none else get x t))))
unfolding remove_orphan
remove_orphan_lem ino x target path t mapped elsewhere = elim (Option-cases (get ino t)) [
  | inl h ↦ (rw (h, remove_orphan) mapped, inl (rw (h, remove_orphan) refl, inl h))
  | inr (e, h) ↦ elim (Bool-cases (e.nlink == 0)) [
    | inl s ↦ (
      rw (h, remove_orphan)
          (rw s (unmap_orphan_lem e.full_path path ino target t.path_to_inode mapped elsewhere)),
      inr (
        rw (h, remove_orphan) (rw s refl),
        (e, h, ground (arith, s)),
        rw (h, remove_orphan) (rw s (unfold get in find-erase ino x t.inodes)),
      ),
    )
    | inr s ↦ (
      rw (h, remove_orphan) (rw s mapped),
      inl (rw (h, remove_orphan) (rw s refl), inr (e, h, λ z. ground (arith, s, z))),
    )
  ]
]
