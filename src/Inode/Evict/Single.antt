-- ===== src/Inode/Evict/Single.antt =====
-- `evict_if_safe`: what it takes out of the table, and what it leaves.
use hf_mount_encrypted.Base.Eq.{number_eq, text_eq}
