-- ===== src/Encryption/Content/Sizes.antt =====
-- src/encryption/content.rs: the sizes of containers.
use hf_mount_encrypted.Base.{ℕ, ◌+◌, ◌*◌, ◌^◌, ◌≤◌, ◌<◌, ◌≡◌, ◌↔◌, some, arith}
use hf_mount_encrypted.Encryption.Content.{
  container_header_len, raf_chunk_size, raf_chunk_record, div_ceil, ciphertext_size,
  container_chunk_count,
}

-- Where the size does not overflow a `u64`, a container of `plaintext` bytes is read as one of as
-- many chunks as the plaintext fills, its last one perhaps in part.
pub container_chunk_count-ciphertext_size :
    (plaintext : ℕ)
    → container_header_len + div_ceil plaintext raf_chunk_size * raf_chunk_record < 2 ^ 64
    → container_chunk_count (ciphertext_size plaintext) ≡ some (div_ceil plaintext raf_chunk_size)
unfolding ciphertext_size container_chunk_count
container_chunk_count-ciphertext_size plaintext h = ground arith

-- The sizes that `container_chunk_count` accepts are the headers and a whole number of slots.
pub container_chunk_count-some :
    (size n : ℕ)
    → (container_chunk_count size ≡ some n) ↔ (size ≡ container_header_len + n * raf_chunk_record)
unfolding container_chunk_count
container_chunk_count-some size n = (λ h. ground arith, λ h. ground arith)

-- The chunk count bounds the plaintext on both sides, and says no more: two plaintexts have
-- containers of one size exactly when they fill as many chunks.
pub ciphertext_size_injective :
    (p q : ℕ)
    → container_header_len + div_ceil p raf_chunk_size * raf_chunk_record < 2 ^ 64
    → container_header_len + div_ceil q raf_chunk_size * raf_chunk_record < 2 ^ 64
    → (ciphertext_size p ≡ ciphertext_size q)
      ↔ (div_ceil p raf_chunk_size ≡ div_ceil q raf_chunk_size)
unfolding ciphertext_size
ciphertext_size_injective p q hp hq = (λ h. omega arith, λ h. omega arith)

-- A container of `n` chunks holds more than `n - 1` and at most `n` chunks of plaintext.
pub chunk_count_bounds :
    (plaintext n : ℕ)
    → container_header_len + div_ceil plaintext raf_chunk_size * raf_chunk_record < 2 ^ 64
    → container_chunk_count (ciphertext_size plaintext) ≡ some n
    → (plaintext ≤ n * raf_chunk_size) × (n * raf_chunk_size < plaintext + raf_chunk_size)
unfolding ciphertext_size container_chunk_count
chunk_count_bounds plaintext n h e = ground arith
