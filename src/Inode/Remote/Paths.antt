-- ===== src/Inode/Remote/Paths.antt =====
-- The ancestors of a path, and `parent_path`.
use hf_mount_encrypted.Base.{
  ℕ, suc, ◌<◌, ◌≤◌, ◌≡◌, ◌⊎◌, refl, sym, ap, ◌∙◌, true, false, [], ◌∷◌, ◌++◌, append_assoc, arith,
  Bool-cases, inl, inr, length, length-append,
}
use hf_mount_encrypted.Base.Eq.{number_eq, text_eq}
use hf_mount_encrypted.Base.Text.{slash}
use hf_mount_encrypted.Inode.{Text, is_nil}
use hf_mount_encrypted.Inode.Remote.{has_slash, parent_path}

-- A beginning of the path that ends before one of its slashes, or the path of the root.
unfoldable pub IsAncestor : Text → Text → Type 0
IsAncestor a path = (a ≡ []) ⊎ ((rest : Text) × (path ≡ a ++ slash ∷ rest))

has_slash-append : (a rest : Text) → has_slash (a ++ slash ∷ rest) ≡ true
unfolding has_slash
has_slash-append [] rest = ground arith
has_slash-append (c ∷ a) rest = ground (arith, has_slash-append a rest)

-- A path with a slash is its parent's path, a slash and the name.
parent_path-split :
    (path : Text)
    → has_slash path ≡ true
    → (rest : Text) × (path ≡ parent_path path ++ slash ∷ rest)
unfolding has_slash parent_path
parent_path-split [] h = cc
parent_path-split (c ∷ cs) h = elim (Bool-cases (has_slash cs)) [
  | inl k ↦ let (rest, e) = parent_path-split cs k in (rest, rw k (ap (◌∷◌ c) e))
  | inr k ↦ let is : c ≡ slash = ground (arith, h, k) in (cs, rw k (ap (λ x. x ∷ cs) is))
]

parent_path-no_slash : (path : Text) → has_slash path ≡ false → parent_path path ≡ []
unfolding has_slash parent_path
parent_path-no_slash [] h = refl
parent_path-no_slash (c ∷ cs) h =
    let none_behind : has_slash cs ≡ false = ground (arith, h) in rw none_behind refl

pub parent_path-IsAncestor : (path : Text) → IsAncestor (parent_path path) path
unfolding IsAncestor
parent_path-IsAncestor path = elim (Bool-cases (has_slash path)) [
  | inl h ↦ inr (parent_path-split path h)
  | inr h ↦ inl (parent_path-no_slash path h)
]

-- What stands before a slash is the parent or an ancestor of the parent.
parent_path-append :
    (a rest : Text)
    → (a ≡ parent_path (a ++ slash ∷ rest))
      ⊎ ((more : Text) × (parent_path (a ++ slash ∷ rest) ≡ a ++ slash ∷ more))
unfolding parent_path
parent_path-append [] rest = elim (Bool-cases (has_slash rest)) [
  | inl h ↦ inr (parent_path rest, rw h refl)
  | inr h ↦ inl (rw h refl)
]
parent_path-append (c ∷ a) rest =
    let h = has_slash-append a rest in
    elim (parent_path-append a rest) [
      | inl e ↦ inl (rw h (ap (◌∷◌ c) e))
      | inr (more, e) ↦ inr (more, rw h (ap (◌∷◌ c) e))
    ]

-- An ancestor is the parent or an ancestor of the parent.
pub IsAncestor-cases :
    (a path : Text) → IsAncestor a path → (a ≡ parent_path path) ⊎ IsAncestor a (parent_path path)
unfolding IsAncestor
IsAncestor-cases a path h = elim h [
  | inl e ↦ inr (inl e)
  | inr (rest, e) ↦
      rw e (elim (parent_path-append a rest) [ inl same ↦ inl same | inr above ↦ inr (inr above) ])
]

pub length-IsAncestor-le : (a path : Text) → IsAncestor a path → length a ≤ length path
unfolding IsAncestor
length-IsAncestor-le a path h = elim h [
  | inl e ↦ rw e (omega arith)
  | inr (rest, e) ↦ rw e (omega (arith, length-append a (slash ∷ rest)))
]

not_empty : (a rest : Text) → [] ≡ a ++ slash ∷ rest → ⊥
not_empty [] rest e = cc
not_empty (c ∷ a) rest e = cc

pub IsAncestor-trans : (a b c : Text) → IsAncestor a b → IsAncestor b c → IsAncestor a c
unfolding IsAncestor
IsAncestor-trans a b c h k = elim h [
  | inl e ↦ inl e
  | inr (rest, e) ↦ elim k [
    | inl empty ↦ absurd (not_empty a rest (sym empty ∙ e))
    | inr (more, f) ↦ inr (
      rest ++ slash ∷ more,
      f ∙ ap (λ (x : Text). x ++ slash ∷ more) e ∙ append_assoc a (slash ∷ rest) (slash ∷ more),
    )
  ]
]

length-parent_path-le : (c : ℕ) (cs : Text) → length (parent_path (c ∷ cs)) ≤ length cs
unfolding parent_path
length-parent_path-le c [] = unfold has_slash in omega arith
length-parent_path-le c (d ∷ cs) = elim (Bool-cases (has_slash (d ∷ cs))) [
  | inl h ↦ rw h (omega (arith, length-parent_path-le d cs))
  | inr h ↦ rw h (omega arith)
]

pub is_nil_lem : (l : Text) → is_nil l ≡ true → l ≡ []
is_nil_lem [] h = refl
is_nil_lem (x ∷ l) h = cc

pub shorter :
    (path : Text) (fuel : ℕ)
    → length path < suc fuel
    → is_nil (parent_path path) ≡ false
    → length (parent_path path) < fuel
shorter [] fuel enough h = absurd (unfold parent_path in ground (arith, h))
shorter (c ∷ cs) fuel enough h = omega (arith, length-parent_path-le c cs, enough)
