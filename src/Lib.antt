-- ===== src/Lib.antt =====
-- hf-mount mounts buckets of the Hugging Face Hub as a file system, with names and contents encrypted
-- on the client where a key is given. This library models the parts of it whose behaviour is decided
-- by their own code, and proves what they promise each other.
--
-- The parts, from the bottom up (paths from the repository's root):
--  * src/base91.rs is the text codec of encrypted names. Base91 has `encode` and `decode` with their
--    loops as recursion over the bytes; the accumulator is a `u32`, and the proofs keep it in range.
--  * src/encryption/path.rs encrypts a path component by component, each under its parent's plaintext
--    path as a tweak. Encryption/PathCipher has the padding, the checks and both directions; the
--    cipher HCTR2 of the crate hctr2-rs is a record of two functions, and its documented laws (length
--    kept, decryption inverts encryption) are a hypothesis of the theorems that need them.
--  * src/encryption/content.rs is the container of encrypted contents. Encryption/Content has the
--    header, the sizes, the plan of a ranged read, and the reader that hands the planned bytes to the
--    crate aegis. The cipher itself, and the staging container that the crate writes, are left out.
--  * src/encryption/url.rs escapes a stored path for a URL: Encryption/Url.
--  * src/error.rs sorts errors into those worth another try and gives the errno: Error. What the code
--    asks of a `reqwest::Error` is a parameter.
--  * src/virtual_fs/inode.rs is the table that the mounts, the flush and the poll loop share. Inode
--    has the entries, Inode/Table the look-ups, the counters and `insert`, Inode/Commit the dirty
--    generation that a flush and the writers share, Inode/Evict the eviction, Inode/Remote the
--    changes that the poll loop brings in, and Inode/Remove the removals and moves.
--  * src/virtual_fs/prefetch.rs holds the buffers of an open remote file: a forward buffer of chunks, a
--    window of bytes that were read, and the download stream. Prefetch has its operations; its children
--    state what the buffers promise (Mirror) and what each operation does to that promise.
--  * src/virtual_fs/mod.rs is the file system over these parts. VirtualFs/Read has `fetch_data` and the
--    `read` of a remote file; what opening a stream gives is a parameter, and a stream is the list of
--    what its next calls give. The assembly loop takes the number of missing bytes as fuel: every turn
--    adds one at least.
--  * src/file_cache.rs keeps whole files on the local disk under a byte capacity: FileCache has the
--    index, one call at a time, with the answers of the disk as arguments.
--  * src/virtual_fs/poll.rs brings remote changes into the table. Poll/Backoff has the delays, Poll/Diff
--    the reconcile round (`poll_round`, `apply_poll_diff`), Poll/Follow the live-follow loop as a state
--    machine over the answers of the Hub, and Poll/Changes its batches.
--  * src/virtual_fs/flush.rs sends written files to the Hub: Flush has the batch from the snapshot of the
--    table to the commits, with the answers of the upload and of the Hub as arguments, and Flush/Queue
--    the remote deletes.
--  * src/virtual_fs/staging.rs and the `StagingDir` of src/xet.rs keep the files that are written before
--    a flush: Staging has the accounting and the reclaim.
--
-- Conventions. A `u64` is a number below 2 ^ 64 whose sums wrap where the source lets them; a `str` is
-- its bytes; a `HashMap` is an association list that holds a key once (Base/Map), and where the source
-- runs through a map in an open order the model runs through it in the order of the list. Clocks are
-- arguments. An operation on the table is a function from table to table, since the source runs each
-- one under the lock of the table. A loop over a stack takes fuel: `remove` gives it the number of all
-- children in the table, and `nearest_dir_ancestor` the length of the path; both are proved enough.
--
-- Not modelled: requests to the Hub and to the chunk store, the FUSE and NFS protocols, processes and
-- the command line, since these are calls of other crates; and, of the inode table, the walks over a
-- subtree that do not change it and the rewriting of paths behind a rename; of the file system, what
-- is not the read path; the debounce and the shutdown of the flush; the locks of the staging
-- files; the single flight of concurrent downloads in the file cache.
pub mod Base
pub mod Base91
pub mod Encryption
pub mod Inode
pub mod Error
pub mod FileCache
pub mod Flush
pub mod Poll
pub mod Prefetch
pub mod Staging
pub mod VirtualFs
