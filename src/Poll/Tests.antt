-- ===== src/Poll/Tests.antt =====
-- Runs of the poll and the live-follow loops, and their theorems at concrete answers.
use hf_mount_encrypted.Base.{ℕ, ◌≡◌, refl, true, false, none, some, List, [], ◌∷◌, arith}
use hf_mount_encrypted.Base.Text.{bytes}
use hf_mount_encrypted.Base.Eq.{text_eq, number_eq}
use hf_mount_encrypted.Base.Map.{find, erase, put, modify}
use hf_mount_encrypted.Inode as Inode
use hf_mount_encrypted.Inode.{Text, InodeEntry, file, set_dirty, add_child}
use hf_mount_encrypted.Inode.Table.{InodeTable, NewInode, insert, new_entry, attach, get}
use hf_mount_encrypted.Inode.Remote.{FileSnapshot, parent_path, has_slash}
use hf_mount_encrypted.Poll.Backoff.{new, delay, escalate, max_delay, reset, is_backing_off}
use hf_mount_encrypted.Poll.Diff.{
  Update, apply_updates, TreeEntry, remote_map_of, diff, update_of, is_updated, is_changed,
  retain_outside, is_under,
}
use hf_mount_encrypted.Poll.Diff.Round.{
  Listing, listed, unlisted, gather, insert_by_depth, sort_by_depth, has_directory, confirm_deleted,
  poll_round, revision, on_probe, on_round,
}
use hf_mount_encrypted.Poll.Diff.Phases
use hf_mount_encrypted.Poll.Diff.Unflushed
use hf_mount_encrypted.Poll.Follow.{
  FollowEvent, ready, changes, cursor, opened, refused, TurnInput, again, session, end_session,
  step_back, subscribe, probed, turn, follow, start,
}
use hf_mount_encrypted.Poll.Follow.Fallback

-- The definitions that the runs compute.
code : Unit {0}
unfolding find erase put new delay escalate max_delay reset is_backing_off remote_map_of diff
    update_of is_updated is_changed gather insert_by_depth sort_by_depth has_directory
    confirm_deleted poll_round parent_path has_slash session end_session step_back subscribe probed
    turn follow start on_probe on_round retain_outside is_under
code = tt

abbrev root_dir : TreeEntry
root_dir = record {
  path = bytes "kept";
  entry_type = bytes "directory";
  size = none;
  xet_hash = none;
  oid = none;
  mtime = none;
}

-- The root is listed and has only `kept`; the listings of `gone` and of `kept` failed.
abbrev answers : List (Text × Listing)
answers =
    (bytes "gone", unlisted true)
    ∷ (bytes "kept", unlisted false)
    ∷ ([], listed (root_dir ∷ []))
    ∷ []

abbrev snapshot : ℕ → Text → FileSnapshot
snapshot ino path = record {
  ino = ino;
  full_path = path;
  xet_hash = none;
  etag = none;
  size = 3;
  dirty = false;
  cipher_size = none;
}

abbrev snapshots : List FileSnapshot
snapshots = snapshot 5 (bytes "gone/a") ∷ snapshot 6 (bytes "kept/b") ∷ snapshot 7 (bytes "c") ∷ []

-- The files of `gone` and of the root are deleted, those of `kept` are not.
deleted_run :
    (diff
      (λ text. 0)
      9
      (remote_map_of (poll_round answers).0 [])
      (poll_round answers).1
      snapshots).1
    ≡ 5 ∷ 7 ∷ []
unfolding code
deleted_run = refl

incomplete_run : (poll_round answers).2 ≡ record { saw_backoff_status = true; complete = false }
unfolding code
incomplete_run = refl

retained_run :
    retain_outside (bytes "d") ((bytes "d/x", 1) ∷ (bytes "dx", 2) ∷ (bytes "d", 3) ∷ [])
    ≡ (bytes "dx", 2) ∷ []
unfolding code
retained_run = refl

abbrev answer_with : List FollowEvent → TurnInput
answer_with events = record { probe = some (bytes "r"); complete = true; connect = opened events }

abbrev refusal : TurnInput
refusal = record { probe = some (bytes "r"); complete = true; connect = refused }

abbrev batch : FollowEvent
batch = changes (bytes "c") []

abbrev bad_feed : List TurnInput
bad_feed =
    refusal
    ∷ answer_with []
    ∷ refusal
    ∷ answer_with (batch ∷ [])
    ∷ refusal
    ∷ answer_with (batch ∷ [])
    ∷ refusal
    ∷ refusal
    ∷ refusal
    ∷ []

follow-falls_back_example : follow bad_feed (start (some (bytes "r"))) ≡ none
unfolding start
follow-falls_back_example =
    Fallback.follow-falls_back bad_feed (start (some (bytes "r")))
      (
        (refl, tt),
        (
          (refl, tt),
          (
            (refl, tt),
            ((refl, tt), ((refl, tt), ((refl, tt), ((refl, tt), ((refl, tt), ((refl, tt), tt)))))),
          ),
        ),
      )
      (omega arith) (omega arith)

-- A session that is ready keeps the loop going, from the last cursor.
ready_run :
    (turn (answer_with (ready none ∷ batch ∷ [])) (start none)).0
    ≡ again 1000000000 (record {
      resume = cursor (bytes "c");
      last_revision = some (bytes "r");
      skip_probe = false;
      backoff = new 10000000000;
      sessions_without_ready = 0;
    })
unfolding code
ready_run = refl

-- The seventh failure waits 64 times the base, and so do all that follow.
escalated_run :
    delay
      (escalate
        (escalate (escalate (escalate (escalate (escalate (escalate (new 30)).1).1).1).1).1).1).1
    ≡ 1920
unfolding code
escalated_run = refl

probe_run :
    on_probe (revision (bytes "r")) (some (bytes "r")) (record { base = 30; exp = 4 })
    ≡ (some (bytes "r"), record { base = 30; exp = 0 }, false)
unfolding code
probe_run = refl

abbrev file_args : NewInode
file_args = record {
  parent = 1;
  name = bytes "f";
  full_path = bytes "f";
  kind = file;
  size = 9;
  mtime = 5;
  xet_hash = none;
  mode = 420;
  uid = 7;
  gid = 7;
}

-- A file that is written to.
abbrev written_table : InodeTable
written_table = Inode.Table.update 2 set_dirty (insert file_args 5 6 (Inode.Table.new true)).0

abbrev written_entry : InodeEntry
written_entry = set_dirty (new_entry file_args 2 0 5 6)

abbrev updates : List Update
updates =
    record {
      ino = 2;
      remote = record { hash = none; etag = none; size = 1; mtime = 1; cipher_size = none };
      needs_size_probe = false;
    }
    ∷ []

table_code : Unit {0}
unfolding Inode.Table.update insert Inode.Table.new new_entry set_dirty attach add_child get find
    erase put modify
table_code = tt

written_there : (get 2 written_table ≡ some written_entry) × (written_entry.dirty_generation ≡ 1)
unfolding table_code
written_there = (refl, refl)

apply_updates-keeps_example : get 2 (apply_updates updates written_table []).0 ≡ some written_entry
apply_updates-keeps_example =
    Unflushed.apply_updates-keeps updates written_table [] 2 written_entry written_there.0
      (λ z. omega (arith, z, written_there.1))
