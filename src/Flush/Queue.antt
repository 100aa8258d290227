-- ===== src/Flush/Queue.antt =====
-- src/virtual_fs/flush.rs: the queue of remote deletes.
use hf_mount_encrypted.Base.{Bool, List, [], ◌∷◌, ◌++◌, if◌then◌else◌}
use hf_mount_encrypted.Base.Eq.{text_eq, ◌==◌}
use hf_mount_encrypted.Inode.{Text, is_nil}
use hf_mount_encrypted.Poll.Diff.{starts_with}
use hf_mount_encrypted.Flush.{BatchOp, delete_file, deletes_of}

unfoldable pub enqueue_delete : Text → List Text → List Text
enqueue_delete path queue = queue ++ path ∷ []

unfoldable pub cancel_delete : Text → List Text → List Text
cancel_delete path [] = []
cancel_delete path (p ∷ queue) =
    let rest = cancel_delete path queue in if p == path then rest else p ∷ rest

unfoldable pub cancel_delete_prefix : Text → List Text → List Text
cancel_delete_prefix prefix [] = []
cancel_delete_prefix prefix (p ∷ queue) =
    let rest = cancel_delete_prefix prefix queue in if starts_with prefix p then rest else p ∷ rest

unfoldable pub requeue : List BatchOp → List Text → List Text
requeue [] queue = queue
requeue (delete_file p ∷ ops) queue = requeue ops (queue ++ p ∷ [])
requeue (_ ∷ ops) queue = requeue ops queue

-- The queue behind the call, and what was sent; `during` is what others do to the queue meanwhile.
unfoldable pub flush_pending_deletes :
    (List BatchOp → Bool) → (List Text → List Text) → List Text → List Text × List BatchOp
flush_pending_deletes accepted during queue =
    let ops = deletes_of queue in
    if is_nil queue
    then (queue, [])
    else if accepted ops
    then (during [], ops)
    else (requeue ops (during []), ops)
