-- ===== src/Prefetch/Mirror.antt =====
-- What the buffers of an open file promise: they hold bytes of the file, at the places they name.
use hf_mount_encrypted.Base.{
  ℕ, ◌+◌, ◌≤◌, ◌<◌, ◌^◌, ◌≡◌, refl, ap, ◌∙◌, Bool, List, length, slice, arith, length-slice,
}
use hf_mount_encrypted.Prefetch.{PrefetchState, new, store_fetched}
use hf_mount_encrypted.Prefetch.Chunks.{contents, FrontIn, zero-FrontIn}

-- The forward buffer holds the bytes of the file from `buf_start` on, and the size that was given
-- for the file is right and leaves room to add a window.
pub record Mirrors (file : List ℕ) (s : PrefetchState) : Type 0 where
  pub sized : s.file_size ≡ length file
  pub room : length file < 2 ^ 63
  pub within : s.buf_start + s.chunks_len ≤ length file
  pub held : contents s.chunks_front_offset s.chunks ≡ slice s.buf_start s.chunks_len file
  pub front : FrontIn s.chunks_front_offset s.chunks

-- The seek window holds the bytes of the file from `seek_start` on.
pub record MirrorsBack (file : List ℕ) (s : PrefetchState) : Type 0 where
  pub back_within : s.seek_start + length s.seek_data ≤ length file
  pub back_held : s.seek_data ≡ slice s.seek_start (length s.seek_data) file

pub new-Mirrors :
    (hash file : List ℕ) (forward_only : Bool)
    → length file < 2 ^ 63
    → Mirrors file (new hash (length file) forward_only)
unfolding new
new-Mirrors hash file forward_only room = record {
  sized = refl;
  room = room;
  within = omega arith;
  held = refl;
  front = tt;
}

pub new-MirrorsBack :
    (hash file : List ℕ) (forward_only : Bool)
    → MirrorsBack file (new hash (length file) forward_only)
unfolding new
new-MirrorsBack hash file forward_only = record { back_within = omega arith; back_held = refl }

pub store_fetched-Mirrors :
    (file : List ℕ) (s : PrefetchState) (offset total : ℕ) (chunks : List (List ℕ))
    → Mirrors file s
    → offset + total ≤ length file
    → contents 0 chunks ≡ slice offset total file
    → Mirrors file (store_fetched offset chunks total s)
unfolding store_fetched
store_fetched-Mirrors file s offset total chunks m within held = record {
  sized = m.sized;
  room = m.room;
  within = within;
  held = held;
  front = zero-FrontIn chunks;
}

pub store_fetched-MirrorsBack :
    (file : List ℕ) (s : PrefetchState) (offset total : ℕ) (chunks : List (List ℕ))
    → MirrorsBack file s
    → MirrorsBack file (store_fetched offset chunks total s)
unfolding store_fetched
store_fetched-MirrorsBack file s offset total chunks m = record {
  back_within = m.back_within;
  back_held = m.back_held;
}

-- The buffer's size is the number of its bytes.
pub length-contents :
    (file : List ℕ) (s : PrefetchState)
    → Mirrors file s
    → length (contents s.chunks_front_offset s.chunks) ≡ s.chunks_len
length-contents file s m = ap length m.held ∙ length-slice s.buf_start s.chunks_len file m.within
