-- ===== src/Poll/Follow.antt =====
-- src/virtual_fs/poll.rs, `follow_remote_changes`: the live-follow feed as a state machine. A turn of
-- its loop takes what the Hub answers in it: the revision probe, whether a reconcile round is
-- complete, the answer to the subscription, and the events of the stream. An event list that ends is
-- a stream that ends, which the source treats like one that fails.
pub mod Fallback
use hf_mount_encrypted.Base.{
  ℕ, suc, ◌+◌, ◌*◌, Bool, true, false, ◌&&◌, not, Option, none, some, List, [], ◌∷◌, ◌++◌, leb, min,
  if◌then◌else◌,
}
use hf_mount_encrypted.Base.Eq.{text_eq, ◌==◌}
use hf_mount_encrypted.Inode.{Text}
use hf_mount_encrypted.Poll.Backoff.{Backoff, new, escalate, max_delay, reset}
use hf_mount_encrypted.Poll.Changes.{FollowChange}

pub data FollowEvent : Type 0 where
  ready : Option Text → FollowEvent
  changes : Text → List FollowChange → FollowEvent
  reset_event : FollowEvent
  reconnect : Option Text → FollowEvent

pub data Resume : Type 0 where
  cursor : Text → Resume
  since live : Resume

abbrev pub retry_base : ℕ
retry_base = 10 * 1000000000

abbrev pub reconnect_floor : ℕ
reconnect_floor = 1000000000

abbrev pub max_sessions_without_ready : ℕ
max_sessions_without_ready = 3

pub record FollowState : Type 0 where
  pub resume : Resume
  pub last_revision : Option Text
  pub skip_probe : Bool
  pub backoff : Backoff
  pub sessions_without_ready : ℕ

-- What the Hub answers to `follow_events`.
pub data Connect : Type 0 where
  opened : List FollowEvent → Connect
  no_feed refused : Connect
  failed : Option ℕ → Connect

pub record TurnInput : Type 0 where
  pub probe : Option Text
  pub complete : Bool
  pub connect : Connect

-- A turn ends with another one behind a delay, or with the fallback to polling.
pub data TurnEnd : Type 0 where
  again : ℕ → FollowState → TurnEnd
  fall_back : TurnEnd

abbrev is_some : Option Text → Bool
is_some none = false
is_some (some _) = true

unfoldable pub start : Option Text → FollowState
start last_revision = record {
  resume = since;
  last_revision = last_revision;
  skip_probe = is_some last_revision;
  backoff = new retry_base;
  sessions_without_ready = 0;
}

abbrev resume_from : Option Text → Resume → Resume
resume_from none r = r
resume_from (some c) r = cursor c

-- The inner loop over the events: the state, the batches to apply, and whether the session is healthy.
unfoldable pub session :
    List FollowEvent → Bool → FollowState → FollowState × List (List FollowChange) × Bool
session [] got_ready s = (s, [], got_ready)
session (ready c ∷ events) got_ready s = session events true (record s {
  resume = resume_from c s.resume;
  backoff = reset s.backoff;
  sessions_without_ready = 0;
})
session (changes c batch ∷ events) got_ready s =
    let later = session events got_ready (record s { resume = cursor c }) in
    (later.0, batch ∷ later.1, later.2)
session (reset_event ∷ events) got_ready s = (record s { resume = since }, [], true)
session (reconnect c ∷ events) got_ready s =
    (record s { resume = resume_from c s.resume }, [], true)

abbrev without_live : Resume → Resume
without_live (cursor c) = cursor c
without_live since = since
without_live live = since

-- Behind the inner loop.
unfoldable pub end_session : Bool → FollowState → TurnEnd
end_session healthy s =
    let t = record s { resume = without_live s.resume } in
    let failed_sessions = s.sessions_without_ready + 1 in
    if healthy
    then again reconnect_floor t
    else if leb max_sessions_without_ready failed_sessions
    then fall_back
    else again (escalate t.backoff).0
        (record t { sessions_without_ready = failed_sessions; backoff = (escalate t.backoff).1 })

-- A refused resume point is retried one step further back.
unfoldable pub step_back : Resume → FollowState → TurnEnd
step_back (cursor c) s = again 0 (record s { resume = since })
step_back since s = again 0 (record s { resume = live })
step_back live s = fall_back

unfoldable pub subscribe : Connect → FollowState → TurnEnd × List (List FollowChange)
subscribe (opened events) s =
    let ended = session events false s in (end_session ended.2 ended.0, ended.1)
subscribe no_feed s = (fall_back, [])
subscribe refused s = (step_back s.resume s, [])
subscribe (failed (some hint)) s = (again (min hint (max_delay s.backoff)) s, [])
subscribe (failed none) s =
    (again (escalate s.backoff).0 (record s { backoff = (escalate s.backoff).1 }), [])

abbrev is_revision : Option Text → Text → Bool
is_revision none rev = false
is_revision (some last) rev = last == rev

-- The turn that probes: a moved revision needs a complete round.
unfoldable pub probed :
    Option Text → Bool → Connect → FollowState → TurnEnd × List (List FollowChange)
probed none complete connect s = subscribe connect s
probed (some rev) complete connect s =
    if not (is_revision s.last_revision rev) && not complete
    then (again (escalate s.backoff).0 (record s { backoff = (escalate s.backoff).1 }), [])
    else subscribe connect (record s { last_revision = some rev })

abbrev is_since : Resume → Bool
is_since (cursor c) = false
is_since since = true
is_since live = false

-- A turn of the outer loop, and the batches that it applies.
unfoldable pub turn : TurnInput → FollowState → TurnEnd × List (List FollowChange)
turn i s =
    let s' = record s { skip_probe = false } in
    if is_since s.resume
    then (if s.skip_probe then subscribe i.connect s' else probed i.probe i.complete i.connect s')
    else subscribe i.connect s

-- The outer loop over the answers of the Hub: the state that it is left in, or `none` behind the
-- fallback.
unfoldable pub follow : List TurnInput → FollowState → Option FollowState
follow [] s = some s
follow (i ∷ inputs) s = elim (turn i s).0 [ again delay t ↦ follow inputs t | fall_back ↦ none ]
