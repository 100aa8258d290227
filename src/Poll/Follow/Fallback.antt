-- ===== src/Poll/Follow/Fallback.antt =====
-- The live-follow loop gives up on a feed that does not work.
use hf_mount_encrypted.Base.{
  ℕ, ◌+◌, ◌*◌, ◌-◌, ◌≤◌, ◌<◌, ◌≡◌, refl, ap, ◌∙◌, true, false, ◌&&◌, not, Option, none, some, List,
  [], ◌∷◌, leb, length, arith, Bool-cases, inl, inr, ◌⊎◌, All, subst,
}
use hf_mount_encrypted.Inode.{Text}
use hf_mount_encrypted.Poll.Follow.{
  FollowEvent, ready, changes, reset_event, reconnect, Resume, cursor, since, live, FollowState,
  Connect, opened, no_feed, refused, failed, TurnInput, TurnEnd, again, fall_back, session,
  end_session, step_back, subscribe, probed, turn, follow, max_sessions_without_ready, is_revision,
  is_since, without_live,
}

-- A stream that ends before the server has sent anything but changes.
abbrev pub IsSilent : List FollowEvent → Type 0
IsSilent [] = Unit
IsSilent (ready _ ∷ events) = ⊥
IsSilent (changes _ _ ∷ events) = IsSilent events
IsSilent (reset_event ∷ events) = ⊥
IsSilent (reconnect _ ∷ events) = ⊥

-- The answers of a feed that does not work: no feed, a refusal, or a stream without `ready`.
abbrev pub IsUnusable : Connect → Type 0
IsUnusable (opened events) = IsSilent events
IsUnusable no_feed = Unit
IsUnusable refused = Unit
IsUnusable (failed _) = ⊥

abbrev pub Fruitless : TurnInput → Type 0
Fruitless i = (i.complete ≡ true) × IsUnusable i.connect

session-silent :
    (events : List FollowEvent) (s : FollowState)
    → IsSilent events
    → ((session events false s).2 ≡ false)
      × ((session events false s).0.sessions_without_ready ≡ s.sessions_without_ready)
unfolding session
session-silent [] s h = (refl, refl)
session-silent (ready _ ∷ events) s h = elim h [ ]
session-silent (reset_event ∷ events) s h = elim h [ ]
session-silent (reconnect _ ∷ events) s h = elim h [ ]
session-silent (changes c batch ∷ events) s h =
    session-silent events (record s { resume = cursor c }) h

rank : Resume → ℕ
rank (cursor c) = 2
rank since = 1
rank live = 0

rank-top : (r : Resume) → rank r ≤ 2
unfolding rank
rank-top (cursor c) = omega arith
rank-top since = omega arith
rank-top live = omega arith

-- How many fruitless turns are left at most.
measure : FollowState → ℕ
measure s = 3 * (2 - s.sessions_without_ready) + rank s.resume

abbrev Shrinks : FollowState → TurnEnd → Type 0
Shrinks s fall_back = Unit
Shrinks s (again delay t) = (measure t < measure s) × (t.sessions_without_ready ≤ 2)

rank-le : (r : Resume) → rank (without_live r) ≤ 2
unfolding rank
rank-le (cursor c) = omega arith
rank-le since = omega arith
rank-le live = omega arith

end_session-Shrinks :
    (before s : FollowState)
    → s.sessions_without_ready ≡ before.sessions_without_ready
    → before.sessions_without_ready ≤ 2
    → Shrinks before (end_session false s)
unfolding end_session measure
end_session-Shrinks before s same few =
    let r = rank-le s.resume in
    elim (Bool-cases (leb max_sessions_without_ready (s.sessions_without_ready + 1))) [
      | inl h ↦ rw h tt
      | inr h ↦ rw h (ground (arith, h, same, r), ground (arith, h))
    ]

step_back-Shrinks :
    (r : Resume) (before s : FollowState)
    → s.sessions_without_ready ≡ before.sessions_without_ready
    → r ≡ before.resume
    → before.sessions_without_ready ≤ 2
    → Shrinks before (step_back r s)
unfolding step_back measure rank
step_back-Shrinks (cursor c) before s same point few =
    let at : 2 ≡ rank before.resume = ap rank point in
    (omega (arith, same, at), omega (arith, same, few))
step_back-Shrinks since before s same point few =
    let at : 1 ≡ rank before.resume = ap rank point in
    (omega (arith, same, at), omega (arith, same, few))
step_back-Shrinks live before s same point few = tt

subscribe-Shrinks :
    (c : Connect) (before s : FollowState)
    → IsUnusable c
    → s.sessions_without_ready ≡ before.sessions_without_ready
    → s.resume ≡ before.resume
    → before.sessions_without_ready ≤ 2
    → Shrinks before (subscribe c s).0
unfolding subscribe
subscribe-Shrinks (opened events) before s unusable same point few =
    let silent = session-silent events s unusable in
    rw silent.0 (end_session-Shrinks before (session events false s).0 (silent.1 ∙ same) few)
subscribe-Shrinks no_feed before s unusable same point few = tt
subscribe-Shrinks refused before s unusable same point few =
    step_back-Shrinks s.resume before s same point few
subscribe-Shrinks (failed hint) before s unusable same point few = elim unusable [ ]

probed-Shrinks :
    (probe : Option Text) (c : Connect) (before s : FollowState)
    → IsUnusable c
    → s.sessions_without_ready ≡ before.sessions_without_ready
    → s.resume ≡ before.resume
    → before.sessions_without_ready ≤ 2
    → Shrinks before (probed probe true c s).0
unfolding probed
probed-Shrinks none c before s unusable same point few =
    subscribe-Shrinks c before s unusable same point few
probed-Shrinks (some rev) c before s unusable same point few =
    let confirmed : (not (is_revision s.last_revision rev) && not true) ≡ false = ground arith in
    rw confirmed
      (subscribe-Shrinks c before (record s { last_revision = some rev }) unusable same point few)

turn-Shrinks :
    (i : TurnInput) (s : FollowState)
    → Fruitless i
    → s.sessions_without_ready ≤ 2
    → Shrinks s (turn i s).0
unfolding turn measure
turn-Shrinks i s f few =
    let s' = record s { skip_probe = false } in
    elim (Bool-cases (is_since s.resume)) [
      | inr h ↦ rw h (subscribe-Shrinks i.connect s s f.1 refl refl few)
      | inl h ↦ elim (Bool-cases s.skip_probe) [
        | inl k ↦ rw (h, k) (subscribe-Shrinks i.connect s s' f.1 refl refl few)
        | inr k ↦ rw (h, k) (rw f.0 (probed-Shrinks i.probe i.connect s s' f.1 refl refl few))
      ]
    ]

TurnEnd-cases : (e : TurnEnd) → (e ≡ fall_back) ⊎ ((d : ℕ) × (t : FollowState) × (e ≡ again d t))
TurnEnd-cases (again d t) = inr (d, t, refl)
TurnEnd-cases fall_back = inl refl

follow_shrinks :
    (inputs : List TurnInput) (s : FollowState)
    → All Fruitless inputs
    → s.sessions_without_ready ≤ 2
    → measure s < length inputs
    → follow inputs s ≡ none
unfolding follow
follow_shrinks [] s f few enough = absurd (omega (arith, enough))
follow_shrinks (i ∷ inputs) s f few enough =
    let shrinks = turn-Shrinks i s f.0 few in
    elim (TurnEnd-cases (turn i s).0) [
      | inl e ↦ rw (e, follow) refl
      | inr (d, t, e) ↦
          let less : Shrinks s (again d t) = subst (Shrinks s) e shrinks in
          rw (e, follow) (follow_shrinks inputs t f.1 less.1 (omega (arith, less.0, enough)))
    ]

-- A feed that does not work is given up: where every turn finds the table reconciled and is answered
-- by no feed, by a refusal or by a stream that ends before `ready`, the loop falls back to polling
-- within nine turns, whichever of these answers come in whatever order.
pub follow-falls_back :
    (inputs : List TurnInput) (s : FollowState)
    → All Fruitless inputs
    → s.sessions_without_ready ≤ 2
    → 9 ≤ length inputs
    → follow inputs s ≡ none
unfolding measure
follow-falls_back inputs s f few enough =
    let top = rank-top s.resume in follow_shrinks inputs s f few (omega (arith, top, enough))
