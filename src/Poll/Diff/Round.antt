-- ===== src/Poll/Diff/Round.antt =====
-- src/virtual_fs/poll.rs, the listings of `poll_round` and the loop of `poll_remote_changes`.
use hf_mount_encrypted.Base.{
  ℕ, ◌+◌, Bool, true, false, ◌&&◌, ◌||◌, not, Option, none, some, List, [], ◌∷◌, ◌++◌, leb,
  if◌then◌else◌,
}
use hf_mount_encrypted.Base.Eq.{text_eq, number_eq, ◌==◌}
use hf_mount_encrypted.Base.Text.{bytes, slash}
use hf_mount_encrypted.Inode.{Text}
use hf_mount_encrypted.Inode.Remote.{parent_path}
use hf_mount_encrypted.Poll.Backoff.{Backoff, escalate, reset, is_backing_off}
use hf_mount_encrypted.Poll.Diff.{TreeEntry, mem_text}

-- The answer to one listing: its entries, or an error and whether to back off on it.
pub data Listing : Type 0 where
  listed : List TreeEntry → Listing
  unlisted : Bool → Listing

-- What the answers come to.
pub record Listed : Type 0 where
  pub entries : List TreeEntry
  pub polled : List Text
  pub failed : List Text
  pub backs_off : Bool

unfoldable pub gather : List (Text × Listing) → Listed
gather [] = record { entries = []; polled = []; failed = []; backs_off = false }
gather ((prefix, listed es) ∷ results) =
    let rest = gather results in
    record rest { entries = es ++ rest.entries; polled = prefix ∷ rest.polled }
gather ((prefix, unlisted backs_off) ∷ results) =
    let rest = gather results in
    record rest { failed = prefix ∷ rest.failed; backs_off = backs_off || rest.backs_off }

abbrev pub depth : Text → ℕ
depth [] = 0
depth (c ∷ cs) = if c == slash then depth cs + 1 else depth cs

-- `sort_by_key` by the depth, which keeps the order of equals.
unfoldable pub insert_by_depth : Text → List Text → List Text
insert_by_depth p [] = p ∷ []
insert_by_depth p (q ∷ qs) =
    let rest = insert_by_depth p qs in if leb (depth p) (depth q) then p ∷ q ∷ qs else q ∷ rest

unfoldable pub sort_by_depth : List Text → List Text
sort_by_depth [] = []
sort_by_depth (p ∷ ps) = insert_by_depth p (sort_by_depth ps)

unfoldable pub has_directory : Text → List TreeEntry → Bool
has_directory path [] = false
has_directory path (e ∷ es) =
    (e.entry_type == bytes "directory" && e.path == path) || has_directory path es

-- A failed directory that its parent's listing no longer has is deleted, and counts as polled.
unfoldable pub confirm_deleted : List TreeEntry → List Text → List Text → List Text
confirm_deleted entries [] polled = polled
confirm_deleted entries (p ∷ ps) polled = confirm_deleted entries ps (
    if mem_text (parent_path p) polled && not (has_directory p entries) then p ∷ polled else polled)

abbrev all_in : List Text → List Text → Bool
all_in [] polled = true
all_in (p ∷ ps) polled = mem_text p polled && all_in ps polled

pub record PollRound : Type 0 where
  pub saw_backoff_status : Bool
  pub complete : Bool

-- What `poll_round` hands to `apply_poll_diff`, and its outcome.
unfoldable pub poll_round : List (Text × Listing) → List TreeEntry × List Text × PollRound
poll_round results =
    let l = gather results in
    let polled = confirm_deleted l.entries (sort_by_depth l.failed) l.polled in
    (
      l.entries,
      polled,
      record { saw_backoff_status = l.backs_off; complete = all_in l.failed polled },
    )

-- The answer to the revision probe; an error says whether to back off on it.
pub data Probe : Type 0 where
  revision : Text → Probe
  probe_failed : Bool → Probe

abbrev is_last : Option Text → Text → Bool
is_last none rev = false
is_last (some last) rev = last == rev

-- The first half of a turn of the poll loop: the state, and whether a round follows.
unfoldable pub on_probe : Probe → Option Text → Backoff → Option Text × Backoff × Bool
on_probe (revision rev) last b =
    let recovered = if is_backing_off b then reset b else b in
    if is_last last rev then (last, recovered, false) else (some rev, recovered, true)
on_probe (probe_failed true) last b = (last, (escalate b).1, false)
on_probe (probe_failed false) last b = (last, b, true)

-- The second half, behind a round.
unfoldable pub on_round : PollRound → Backoff → Backoff
on_round r b =
    if r.saw_backoff_status then (escalate b).1 else if is_backing_off b then reset b else b
