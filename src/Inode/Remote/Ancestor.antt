-- ===== src/Inode/Remote/Ancestor.antt =====
-- `nearest_dir_ancestor` ends, and finds the nearest directory of the table above a path.
use hf_mount_encrypted.Base.{
  ℕ, zero, suc, ◌<◌, ◌≤◌, ◌≡◌, ◌⊎◌, refl, sym, ap, ◌∙◌, true, none, Option, some, [], arith,
  Bool-cases, Option-cases, inl, inr, length,
}
use hf_mount_encrypted.Base.Eq.{number_eq, text_eq}
use hf_mount_encrypted.Base.Map.{find}
use hf_mount_encrypted.Inode.{
  Text, root_inode, is_nil, InodeEntry, InodeKind, file, directory, symlink, is_directory,
}
use hf_mount_encrypted.Inode.Table.{InodeTable, get}
use hf_mount_encrypted.Inode.Remote.{parent_path, ancestor_loop, nearest_dir_ancestor, get_dir_ino}
use hf_mount_encrypted.Inode.Remote.Paths.{
  IsAncestor, parent_path-IsAncestor, IsAncestor-cases, length-IsAncestor-le, IsAncestor-trans,
  shorter, is_nil_lem,
}

-- The path leads to a directory of the table.
unfoldable pub IsDirAt : InodeTable → Text → ℕ → Type 0
IsDirAt t path dir_ino =
    (i : ℕ) × (e : InodeEntry) × (find path t.path_to_inode ≡ some i)
    × (get i t ≡ some e)
    × (e.kind ≡ directory)
    × (e.inode ≡ dir_ino)

-- The path leads to no directory.
abbrev pub IsNoDir : InodeTable → Text → Type 0
IsNoDir t path = ¬ ((dir_ino : ℕ) × IsDirAt t path dir_ino)

is_directory_lem : (k : InodeKind) → is_directory k ≡ true → k ≡ directory
is_directory_lem file h = cc
is_directory_lem directory h = refl
is_directory_lem symlink h = cc

none-some : {A : Type 0} {o : Option A} {a : A} → o ≡ some a → o ≡ none → ⊥
none-some h k = cc

get_dir_ino-IsDirAt :
    (path : Text) (t : InodeTable) (d : ℕ) → get_dir_ino path t ≡ some d → IsDirAt t path d
unfolding get_dir_ino IsDirAt
get_dir_ino-IsDirAt path t d h = elim (Option-cases (find path t.path_to_inode)) [
  | inl e ↦ let z : get_dir_ino path t ≡ none = rw (e, get_dir_ino) refl in absurd (none-some h z)
  | inr (i, e) ↦ elim (Option-cases (get i t)) [
    | inl k ↦
        let z : get_dir_ino path t ≡ none = rw (e, get_dir_ino) (rw k refl) in
        absurd (none-some h z)
    | inr (v, k) ↦ elim (Bool-cases (is_directory v.kind)) [
      | inr l ↦
          let z : get_dir_ino path t ≡ none = rw (e, get_dir_ino) (rw k (rw l refl)) in
          absurd (none-some h z)
      | inl l ↦
          let z : get_dir_ino path t ≡ some v.inode = rw (e, get_dir_ino) (rw k (rw l refl)) in
          let same = sym z ∙ h in (i, v, e, k, is_directory_lem v.kind l, cc)
    ]
  ]
]

get_dir_ino-IsNoDir : (path : Text) (t : InodeTable) → get_dir_ino path t ≡ none → IsNoDir t path
unfolding get_dir_ino IsDirAt
get_dir_ino-IsNoDir path t h (d, (i, v, e, k, is, at_ino)) =
    let there : get_dir_ino path t ≡ some v.inode = rw (e, get_dir_ino) (rw k (rw is refl)) in cc

-- What the search hands out: a directory of the table, or the root where its own path is none.
abbrev pub IsFound : InodeTable → ℕ → Text → Type 0
IsFound t dir_ino ancestor =
    IsDirAt t ancestor dir_ino ⊎ ((dir_ino ≡ root_inode) × (ancestor ≡ []) × IsNoDir t [])

ancestor_loop_lem :
    (fuel : ℕ) (path : Text) (t : InodeTable) (other : Text)
    → length path < fuel
    → IsAncestor other path
    → (dir_ino : ℕ) × (ancestor : Text) × (ancestor_loop fuel path t ≡ some (dir_ino, ancestor))
      × IsFound t dir_ino ancestor
      × IsAncestor ancestor path
      × ((length other ≤ length ancestor) ⊎ IsNoDir t other)
unfolding ancestor_loop
ancestor_loop_lem zero path t other enough o = absurd (omega (arith, enough))
ancestor_loop_lem (suc fuel) path t other enough o =
    let parent = parent_path path in
    let up = parent_path-IsAncestor path in
    elim (Option-cases (get_dir_ino parent t)) [
      | inr (d, h) ↦ (
        d,
        parent,
        rw (h, ancestor_loop) refl,
        inl (get_dir_ino-IsDirAt parent t d h),
        up,
        elim (IsAncestor-cases other path o) [
          | inl same ↦ inl (rw same (omega arith))
          | inr above ↦ inl (length-IsAncestor-le other parent above)
        ],
      )
      | inl h ↦ elim (Bool-cases (is_nil parent)) [
        | inl k ↦
            let top : parent ≡ [] = is_nil_lem parent k in
            let none_there : get_dir_ino [] t ≡ none = rw (← top) h in
            (
              root_inode,
              [],
              rw (h, ancestor_loop) (rw k refl),
              inr (refl, refl, get_dir_ino-IsNoDir [] t none_there),
              unfold IsAncestor in inl refl,
              elim (IsAncestor-cases other path o) [
                | inl same ↦ inr (
                    get_dir_ino-IsNoDir other t
                      (ap (λ (x : Text). get_dir_ino x t) (same ∙ top) ∙ none_there))
                | inr above ↦ inl (rw top at (length-IsAncestor-le other parent above))
              ],
            )
        | inr k ↦ elim (IsAncestor-cases other path o) [
          | inl same ↦
              let (d, a, found, is, above, near) =
                ancestor_loop_lem fuel parent t [] (shorter path fuel enough k)
                  (unfold IsAncestor in inl refl) in
              (
                d,
                a,
                rw (h, ancestor_loop) (rw k found),
                is,
                IsAncestor-trans a parent path above up,
                inr (get_dir_ino-IsNoDir other t (ap (λ (x : Text). get_dir_ino x t) same ∙ h)),
              )
          | inr higher ↦
              let (d, a, found, is, above, near) =
                ancestor_loop_lem fuel parent t other (shorter path fuel enough k) higher in
              (
                d,
                a,
                rw (h, ancestor_loop) (rw k found),
                is,
                IsAncestor-trans a parent path above up,
                near,
              )
        ]
      ]
    ]

-- `nearest_dir_ancestor` ends for every path. An ancestor of a path is what stands before one of its
-- slashes, or the empty path. The search hands out an ancestor that is a directory of the table; or,
-- where the empty path is none, the root with the empty path. It is the nearest: every other ancestor
-- is no directory of the table, or not longer than the one handed out.
pub nearest_dir_ancestor_lem :
    (path : Text) (t : InodeTable) (other : Text)
    → IsAncestor other path
    → (dir_ino : ℕ) × (ancestor : Text) × (nearest_dir_ancestor path t ≡ some (dir_ino, ancestor))
      × IsFound t dir_ino ancestor
      × IsAncestor ancestor path
      × ((length other ≤ length ancestor) ⊎ IsNoDir t other)
unfolding nearest_dir_ancestor
nearest_dir_ancestor_lem path t other o =
    ancestor_loop_lem (suc (length path)) path t other (omega arith) o
