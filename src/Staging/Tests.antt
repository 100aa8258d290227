-- ===== src/Staging/Tests.antt =====
-- Runs of the reclaim of staging files.
use hf_mount_encrypted.Base.{ℕ, ◌≡◌, refl, true, false, some, [], ◌∷◌}
use hf_mount_encrypted.Base.Text.{bytes}
use hf_mount_encrypted.Base.Eq.{number_eq}
use hf_mount_encrypted.Base.Map.{find, erase, put, modify}
use hf_mount_encrypted.Inode as Inode
use hf_mount_encrypted.Inode.{file, set_dirty, add_child, is_dirty}
use hf_mount_encrypted.Inode.Table.{InodeTable, NewInode, insert, new_entry, attach, get}
use hf_mount_encrypted.Staging.{
  StagingDir, is_clean, file_size, is_over_limit, resize_bytes, try_remove, gc_one, gc_loop, gc,
}
use hf_mount_encrypted.Staging.Reclaim

abbrev named : ℕ → NewInode
named letter = record {
  parent = 1;
  name = letter ∷ [];
  full_path = letter ∷ [];
  kind = file;
  size = 9;
  mtime = 5;
  xet_hash = some (bytes "h");
  mode = 420;
  uid = 7;
  gid = 7;
}

-- The files 2 and 3, and the table in which 3 is written to.
abbrev both : InodeTable
both = (insert (named 98) 5 6 (insert (named 97) 5 6 (Inode.Table.new true)).0).0

abbrev written : ℕ → InodeTable
written ino = Inode.Table.update 3 set_dirty both

abbrev staged : StagingDir
staged = record { files = (2, 40) ∷ (3, 70) ∷ []; bytes_used = 110; max_bytes = 20 }

code : Unit {0}
unfolding Inode.Table.new Inode.Table.update insert new_entry attach add_child set_dirty is_dirty
    get find erase put modify file_size is_over_limit resize_bytes try_remove gc_one gc_loop
code = tt

-- The clean file goes, the written one stays, though the directory is over its limit still.
reclaim_run :
    (gc_loop (λ ino. true) written (2 ∷ 3 ∷ []) 0 staged)
    ≡ (record { files = (3, 70) ∷ []; bytes_used = 70; max_bytes = 20 }, 1)
unfolding code
reclaim_run = refl

written_unclean : is_clean (get 3 (written 3)) ≡ false
unfolding code
written_unclean = refl

gc-keeps_example : find 3 (gc (λ ino. true) both written staged).0.files ≡ find 3 staged.files
gc-keeps_example = Reclaim.gc-keeps (λ ino. true) 3 both written staged written_unclean
