-- ===== src/Flush.antt =====
-- src/virtual_fs/flush.rs: what a flush sends to the Hub and what it writes to the table. The answers
-- of the upload and of the Hub are arguments, and so is what others do to the table while a call is
-- on its way, since the lock is released there.
pub mod Queue
pub mod Batch
mod Tests
use hf_mount_encrypted.Base.{
  ℕ, Bool, true, false, ◌&&◌, ◌||◌, not, Option, none, some, List, [], ◌∷◌, ◌++◌, if◌then◌else◌,
}
use hf_mount_encrypted.Base.Eq.{text_eq, number_eq, ◌==◌}
use hf_mount_encrypted.Base.Map.{put}
use hf_mount_encrypted.Inode.{Text, InodeEntry, is_dirty, is_nil, apply_commit}
use hf_mount_encrypted.Inode.Table.{InodeTable, get, update}

pub data FlushSignal : Type 0 where
  dirty : ℕ → FlushSignal
  wake_deletes : FlushSignal

-- The inodes of a turn of `flush_loop`.
unfoldable pub signalled : List FlushSignal → List ℕ
signalled [] = []
signalled (dirty ino ∷ signals) = ino ∷ signalled signals
signalled (wake_deletes ∷ signals) = signalled signals

abbrev pub reverse_onto : List ℕ → List ℕ → List ℕ
reverse_onto [] acc = acc
reverse_onto (x ∷ xs) acc = reverse_onto xs (x ∷ acc)

abbrev pub seen_in : ℕ → List ℕ → Bool
seen_in x [] = false
seen_in x (y ∷ ys) = x == y || seen_in x ys

-- `filter(|ino| seen.insert(*ino))`
unfoldable pub keep_first : List ℕ → List ℕ → List ℕ
keep_first seen [] = []
keep_first seen (x ∷ xs) =
    let later = keep_first (x ∷ seen) xs in
    let without = keep_first seen xs in if seen_in x seen then without else x ∷ later

unfoldable pub dedup : List ℕ → List ℕ
dedup pending = reverse_onto (keep_first [] (reverse_onto pending [])) []

pub record FlushItem : Type 0 where
  pub ino : ℕ
  pub full_path : Text
  pub pending_deletes : List Text
  pub dirty_generation : ℕ
  pub prev_xet_hash : Option Text

-- What the snapshot makes of an inode.
pub data Snapshot : Type 0 where
  skipped missing : Snapshot
  item : FlushItem → Snapshot

unfoldable pub snapshot_entry : Bool → ℕ → InodeEntry → Snapshot
snapshot_entry staged ino e =
    if e.nlink == 0 || not (is_dirty e)
    then skipped
    else if not staged
    then missing
    else item (record {
      ino = ino;
      full_path = e.full_path;
      pending_deletes = e.pending_deletes;
      dirty_generation = e.dirty_generation;
      prev_xet_hash = e.xet_hash;
    })

unfoldable pub snapshot_ino : (ℕ → Bool) → InodeTable → ℕ → Snapshot
snapshot_ino staged t ino = elim (get ino t) [
  | none ↦ skipped
  | some e ↦ snapshot_entry (staged ino) ino e
]

-- The errors of the flush by inode, with what went wrong.
pub data FlushError : Type 0 where
  staging_missing upload_failed commit_failed : FlushError

abbrev pub Errors : Type 0
Errors = List (ℕ × FlushError)

unfoldable pub take_snapshots : (ℕ → Bool) → InodeTable → List ℕ → Errors → List FlushItem × Errors
take_snapshots staged t [] errors = ([], errors)
take_snapshots staged t (ino ∷ inos) errors = elim (snapshot_ino staged t ino) [
  | skipped ↦ take_snapshots staged t inos errors
  | missing ↦ take_snapshots staged t inos (put ino staging_missing errors)
  | item i ↦ let rest = take_snapshots staged t inos errors in (i ∷ rest.0, rest.1)
]

-- What the upload of a file gives: its hash and its size.
pub record Uploaded : Type 0 where
  pub hash : Text
  pub size : ℕ

pub data BatchOp : Type 0 where
  add_file : Text → Text → ℕ → BatchOp
  delete_file : Text → BatchOp

abbrev same_hash : Option Text → Text → Bool
same_hash none hash = false
same_hash (some old) hash = old == hash

unfoldable pub is_unchanged : FlushItem → Uploaded → Bool
is_unchanged i u = is_nil i.pending_deletes && same_hash i.prev_xet_hash u.hash

unfoldable pub deletes_of : List Text → List BatchOp
deletes_of [] = []
deletes_of (p ∷ ps) = delete_file p ∷ deletes_of ps

-- The loop that collects the adds and the deletes.
unfoldable pub collect_ops : ℕ → List (FlushItem × Uploaded) → List BatchOp × List BatchOp
collect_ops mtime [] = ([], [])
collect_ops mtime ((i, u) ∷ uploads) =
    let rest = collect_ops mtime uploads in
    if is_unchanged i u
    then rest
    else (add_file i.full_path u.hash mtime ∷ rest.0, deletes_of i.pending_deletes ++ rest.1)

unfoldable pub batch_ops : ℕ → List (FlushItem × Uploaded) → List BatchOp
batch_ops mtime uploads = let ops = collect_ops mtime uploads in ops.0 ++ ops.1

-- The commit of the files that are unchanged, or of those that are not.
unfoldable pub commit_all : Bool → ℕ → ℕ → List (FlushItem × Uploaded) → InodeTable → InodeTable
commit_all unchanged now instant [] t = t
commit_all unchanged now instant ((i, u) ∷ uploads) t =
    let committed = update i.ino (apply_commit u.hash u.size i.dirty_generation now instant) t in
    commit_all unchanged now instant uploads (
      if (is_unchanged i u && unchanged) || (not (is_unchanged i u) && not unchanged)
      then committed
      else t)

unfoldable pub fail_all : FlushError → List FlushItem → Errors → Errors
fail_all what [] errors = errors
fail_all what (i ∷ items) errors = fail_all what items (put i.ino what errors)

unfoldable pub fail_changed : List (FlushItem × Uploaded) → Errors → Errors
fail_changed [] errors = errors
fail_changed ((i, u) ∷ uploads) errors =
    fail_changed uploads (if is_unchanged i u then errors else put i.ino commit_failed errors)

abbrev pub zip : List FlushItem → List Uploaded → List (FlushItem × Uploaded)
zip [] us = []
zip (i ∷ items) [] = []
zip (i ∷ items) (u ∷ us) = (i, u) ∷ zip items us

-- What the world does in a flush: whether a staging file is there, what the upload gives, whether the
-- Hub takes the batch, and what others do to the table during the two calls. The chunks of the upload
-- are one answer, since one that fails ends the flush, and the clock is read once.
pub record World : Type 0 where
  pub staged : ℕ → Bool
  pub upload : List FlushItem → Option (List Uploaded)
  pub committed : List BatchOp → Bool
  pub during_upload : InodeTable → InodeTable
  pub during_commit : InodeTable → InodeTable
  pub mtime : ℕ
  pub now : ℕ
  pub instant : ℕ

-- Behind the upload: the table, the errors and the operations that were sent.
unfoldable pub commit_uploads :
    World → List (FlushItem × Uploaded) → InodeTable → Errors → InodeTable × Errors × List BatchOp
commit_uploads w uploads t errors =
    let ops = batch_ops w.mtime uploads in
    let cleared = commit_all true w.now w.instant uploads t in
    if is_nil ops
    then (cleared, errors, [])
    else if w.committed ops
    then (commit_all false w.now w.instant uploads (w.during_commit cleared), errors, ops)
    else (w.during_commit cleared, fail_changed uploads errors, ops)

unfoldable pub flush_batch :
    World → List ℕ → InodeTable → Errors → InodeTable × Errors × List BatchOp
flush_batch w pending t errors =
    let snapshots = take_snapshots w.staged t (dedup pending) errors in
    if is_nil snapshots.0 then (t, snapshots.1, []) else elim (w.upload snapshots.0) [
      | none ↦ (w.during_upload t, fail_all upload_failed snapshots.0 snapshots.1, [])
      | some results ↦ commit_uploads w (zip snapshots.0 results) (w.during_upload t) snapshots.1
    ]
