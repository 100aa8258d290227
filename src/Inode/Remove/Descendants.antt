-- ===== src/Inode/Remove/Descendants.antt =====
-- `remove` leaves no descendant of what it removes behind.
use mathlib.Core.Option
use hf_mount_encrypted.Base.{
  ℕ, zero, suc, ◌≡◌, refl, sym, ap, ◌∙◌, Bool, true, false, ◌||◌, none, some, List, [], ◌∷◌, ◌==◌,
  if◌then◌else◌, arith, subst, Bool-cases, Option-cases, inl, inr,
}
use hf_mount_encrypted.Base.Eq.{number_eq}
use hf_mount_encrypted.Base.Map.{find-erase, find-modify}
use hf_mount_encrypted.Inode.{InodeEntry, DirChild, drop_child}
use hf_mount_encrypted.Inode.Table.{InodeTable, get, update}
use hf_mount_encrypted.Inode.Evict.{mem}
use hf_mount_encrypted.Inode.Remove.{
  detach, detach_from_parent, push_children, erase_entry, sweep, all_children, remove,
}
use hf_mount_encrypted.Inode.Remove.Sweep.{detach-children}

-- A child of the list has this inode.
unfoldable pub is_child : ℕ → List DirChild → Bool
is_child x [] = false
is_child x (c ∷ cs) = c.ino == x || is_child x cs

mem-push_children :
    (x : ℕ) (cs : List DirChild) (stack : List ℕ)
    → mem x (push_children cs stack) ≡ (is_child x cs || mem x stack)
unfolding push_children mem is_child
mem-push_children x [] stack = ground arith
mem-push_children x (c ∷ cs) stack = ground (arith, mem-push_children x cs (c.ino ∷ stack))

get-erase_entry :
    (ino x : ℕ) (e : InodeEntry) (t : InodeTable)
    → get x (erase_entry ino e t) ≡ (if ino == x then none else get x t)
unfolding get erase_entry
get-erase_entry ino x e t = find-erase ino x t.inodes

-- What is not in the table stays out of it.
sweep-none :
    (fuel : ℕ) (stack : List ℕ) (t u : InodeTable) (x : ℕ)
    → sweep fuel stack t ≡ some u
    → get x t ≡ none
    → get x u ≡ none
unfolding sweep
sweep-none fuel [] t u x done gone =
    let same : t ≡ u = cc in subst (λ (v : InodeTable). get x v ≡ none) same gone
sweep-none zero (ino ∷ stack) t u x done gone = cc
sweep-none (suc fuel) (ino ∷ stack) t u x done gone = elim (Option-cases (get ino t)) [
  | inl h ↦ sweep-none fuel stack t u x (sym (rw (h, sweep) refl) ∙ done) gone
  | inr (e, h) ↦
      sweep-none fuel (push_children e.children stack) (erase_entry ino e t) u x
        (sym (rw (h, sweep) refl) ∙ done)
        (get-erase_entry ino x e t
          ∙ elim (Bool-cases (ino == x)) [ inl s ↦ rw s refl | inr s ↦ rw s gone ])
]

-- What is on the stack leaves the table.
sweep-mem :
    (fuel : ℕ) (stack : List ℕ) (t u : InodeTable) (x : ℕ)
    → sweep fuel stack t ≡ some u
    → mem x stack ≡ true
    → get x u ≡ none
unfolding sweep mem
sweep-mem fuel [] t u x done held = cc
sweep-mem zero (ino ∷ stack) t u x done held = cc
sweep-mem (suc fuel) (ino ∷ stack) t u x done held = elim (Option-cases (get ino t)) [
  | inl h ↦
      let next : sweep fuel stack t ≡ some u = sym (rw (h, sweep) refl) ∙ done in
      elim (Bool-cases (x == ino)) [
        | inl s ↦
            let same : x ≡ ino = ground (arith, s) in sweep-none fuel stack t u x next (rw same h)
        | inr s ↦ sweep-mem fuel stack t u x next (ground (arith, s, held))
      ]
  | inr (e, h) ↦
      let rest = push_children e.children stack in
      let next : sweep fuel rest (erase_entry ino e t) ≡ some u = sym (rw (h, sweep) refl) ∙ done in
      elim (Bool-cases (x == ino)) [
        | inl s ↦
            let back : (ino == x) ≡ true = ground (arith, s) in
            sweep-none fuel rest (erase_entry ino e t) u x next
              (get-erase_entry ino x e t ∙ rw back refl)
        | inr s ↦
            sweep-mem fuel rest (erase_entry ino e t) u x next
              (ground (arith, s, held, mem-push_children x e.children stack))
      ]
]

-- Where the loop takes an entry, it takes the entry's children.
sweep-is_child :
    (fuel : ℕ) (stack : List ℕ) (t u : InodeTable) (x c : ℕ) (v : InodeEntry)
    → sweep fuel stack t ≡ some u
    → get x t ≡ some v
    → get x u ≡ none
    → is_child c v.children ≡ true
    → get c u ≡ none
unfolding sweep
sweep-is_child fuel [] t u x c v done found gone child =
    let same : t ≡ u = cc in
    let both : get x t ≡ none = subst (λ (w : InodeTable). get x w ≡ none) (sym same) gone in
    absurd (ground (arith, both, found))
sweep-is_child zero (ino ∷ stack) t u x c v done found gone child = cc
sweep-is_child (suc fuel) (ino ∷ stack) t u x c v done found gone child =
    elim (Option-cases (get ino t)) [
      | inl h ↦
          sweep-is_child fuel stack t u x c v (sym (rw (h, sweep) refl) ∙ done) found gone child
      | inr (e, h) ↦
          let rest = push_children e.children stack in
          let next : sweep fuel rest (erase_entry ino e t) ≡ some u =
            sym (rw (h, sweep) refl) ∙ done in
          elim (Bool-cases (ino == x)) [
            | inl s ↦
                let same : ino ≡ x = ground (arith, s) in
                let it : some e ≡ some v = sym h ∙ (rw same found) in
                let kids : e.children ≡ v.children = cc in
                sweep-mem fuel rest (erase_entry ino e t) u c next
                  (mem-push_children c e.children stack ∙ rw kids (rw child refl))
            | inr s ↦
                sweep-is_child fuel rest (erase_entry ino e t) u x c v next
                  (get-erase_entry ino x e t ∙ rw s found) gone child
          ]
    ]

is_child-drop_child :
    (c i : ℕ) (cs : List DirChild) → (c == i) ≡ false → is_child c (drop_child i cs) ≡ is_child c cs
unfolding is_child drop_child
is_child-drop_child c i [] other = refl
is_child-drop_child c i (d ∷ cs) other = elim (Bool-cases (d.ino == i)) [
  | inl s ↦ rw s (ground (arith, s, other))
  | inr s ↦ rw s (ground (arith, is_child-drop_child c i cs other))
]

is_child-detach :
    (c i : ℕ) (e v : InodeEntry)
    → (c == i) ≡ false
    → is_child c (detach i e.kind false v).children ≡ is_child c v.children
is_child-detach c i e v other = elim (detach-children i e v) [
  | inl h ↦ rw h refl
  | inr h ↦ rw h (is_child-drop_child c i v.children other)
]

-- The table that the loop of `remove` starts from.
abbrev start : ℕ → InodeEntry → InodeTable → InodeTable
start inode e t = detach_from_parent e.parent inode e.kind false (erase_entry inode e t)

get-start :
    (inode x : ℕ) (e : InodeEntry) (t : InodeTable)
    → get x (start inode e t) ≡ (
        if e.parent == x
        then Option.map (detach inode e.kind false) (get x (erase_entry inode e t))
        else get x (erase_entry inode e t))
unfolding get detach_from_parent update
get-start inode x e t =
    find-modify e.parent x (detach inode e.kind false) (erase_entry inode e t).inodes

get-start-none : (inode : ℕ) (e : InodeEntry) (t : InodeTable) → get inode (start inode e t) ≡ none
get-start-none inode e t =
    let same : (inode == inode) ≡ true = ground arith in
    let gone : get inode (erase_entry inode e t) ≡ none =
      get-erase_entry inode inode e t ∙ rw same refl in
    get-start inode inode e t
    ∙ rw gone (elim (Bool-cases (e.parent == inode)) [ inl s ↦ rw s refl | inr s ↦ rw s refl ])

-- Another entry is there with its other children.
get-start-some :
    (inode x c : ℕ) (e v : InodeEntry) (t : InodeTable)
    → get x t ≡ some v
    → (inode == x) ≡ false
    → (c == inode) ≡ false
    → is_child c v.children ≡ true
    → (w : InodeEntry) × (get x (start inode e t) ≡ some w) × (is_child c w.children ≡ true)
get-start-some inode x c e v t found other apart child =
    let kept : get x (erase_entry inode e t) ≡ some v =
      get-erase_entry inode x e t ∙ rw other found in
    elim (Bool-cases (e.parent == x)) [
      | inl s ↦ (
        detach inode e.kind false v,
        get-start inode x e t ∙ rw (s, kept) refl,
        is_child-detach c inode e v apart ∙ child,
      )
      | inr s ↦ (v, get-start inode x e t ∙ rw s kept, child)
    ]

remove-sweep :
    (inode : ℕ) (t u : InodeTable) (e : InodeEntry)
    → remove inode t ≡ some (u, some e)
    → (get inode t ≡ some e)
      × (sweep (all_children t.inodes) (push_children e.children []) (start inode e t) ≡ some u)
unfolding remove
remove-sweep inode t u e done = elim (Option-cases (get inode t)) [
  | inl h ↦
      let early : remove inode t ≡ some (t, none) = rw (h, remove) refl in
      absurd (ground (arith, early, done))
  | inr (f, h) ↦
      elim (Option-cases
        (sweep (all_children t.inodes) (push_children f.children []) (start inode f t))) [
          | inl k ↦
              let early : remove inode t ≡ none = rw (h, remove) (rw k refl) in
              absurd (ground (arith, early, done))
          | inr (w, k) ↦
              let ends : remove inode t ≡ some (w, some f) = rw (h, remove) (rw k refl) in
              let same : f ≡ e = cc in
              let result : w ≡ u = cc in
              (
                h ∙ ap some same,
                subst
                    (λ (g : InodeEntry).
                      sweep (all_children t.inodes) (push_children g.children []) (start inode g t)
                      ≡ some u)
                    same (k ∙ ap some result),
              )
        ]
]

-- What `remove` takes out of the table goes with its children: behind a removal the inode is
-- gone, and no entry that was in the table before is gone while a child of it is still there.
pub remove-is_child :
    (inode x c : ℕ) (t u : InodeTable) (e v : InodeEntry) (done : remove inode t ≡ some (u, some e))
    (found : get x t ≡ some v) (gone : get x u ≡ none) (child : is_child c v.children ≡ true)
    → (get inode u ≡ none) × (get c u ≡ none)
remove-is_child inode x c t u e v done found gone child =
    let swept = remove-sweep inode t u e done in
    let fuel = all_children t.inodes in
    let stack = push_children e.children [] in
    let itself =
      sweep-none fuel stack (start inode e t) u inode swept.1 (get-start-none inode e t) in
    (
      itself,
      elim (Bool-cases (c == inode)) [
        | inl s ↦ let same : c ≡ inode = ground (arith, s) in rw same itself
        | inr s ↦ elim (Bool-cases (inode == x)) [
          | inl k ↦
              let same : inode ≡ x = ground (arith, k) in
              let it : some e ≡ some v = sym swept.0 ∙ rw same found in
              let kids : e.children ≡ v.children = cc in
              sweep-mem fuel stack (start inode e t) u c swept.1
                (mem-push_children c e.children [] ∙ rw kids (rw child refl))
          | inr k ↦
              let w = get-start-some inode x c e v t found k s child in
              sweep-is_child fuel stack (start inode e t) u x c w.0 swept.1 w.1 gone w.2
        ]
      ],
    )
