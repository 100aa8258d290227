-- ===== src/Poll/Diff/Phases.antt =====
-- What a poll round may delete.
use hf_mount_encrypted.Base.{ℕ, ◌≡◌, Bool, true, false, ◌&&◌, not, none, List}
use mathlib.Core.List.{Memᴰ}
use hf_mount_encrypted.Base.Eq.{text_eq, number_eq}
use hf_mount_encrypted.Base.Map.{find}
use hf_mount_encrypted.Inode.{Text, is_none}
use hf_mount_encrypted.Inode.Remote.{FileSnapshot, parent_path}
use hf_mount_encrypted.Poll.Diff.{TreeEntry, mem_text}
use hf_mount_encrypted.Poll.Diff.Round.{has_directory}

-- A file of the snapshot that may count as deleted.
pub record IsDeleted (remote_map : List (Text × TreeEntry)) (polled : List Text) (ino : ℕ)
    (f : FileSnapshot) : Type 0 where
  pub is_it : f.ino ≡ ino
  pub clean : f.dirty ≡ false
  pub unlisted_path : find f.full_path remote_map ≡ none
  pub parent_polled : mem_text (parent_path f.full_path) polled ≡ true

deletes : List (Text × TreeEntry) → List Text → FileSnapshot → Bool
deletes remote_map polled f =
    not f.dirty
    && is_none (find f.full_path remote_map)
    && mem_text (parent_path f.full_path) polled

-- The directories that count as polled in the end.
module _ (entries : List TreeEntry) where
  -- What joins is a failed directory that the listing of its parent no longer has.
  pub record Vanished (failed polled : List Text) (p : Text) : Type 0 where
    pub was_failed : mem_text p failed ≡ true
    pub above_polled : mem_text (parent_path p) polled ≡ true
    pub unlisted_dir : has_directory p entries ≡ false
