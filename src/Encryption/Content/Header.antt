-- ===== src/Encryption/Content/Header.antt =====
-- src/encryption/content.rs: the HFEB header.
use hf_mount_encrypted.Base.{ℕ, ◌≡◌, ◌↔◌, List, ◌∷◌, ◌++◌, arith, take, ◌==◌, if◌then◌else◌}
use hf_mount_encrypted.Base.Results.{ok, err}
use hf_mount_encrypted.Encryption.Content.{
  alg_aegis_128x2, write_header, bytes_eq, parse_header, unknown_algorithm,
}

-- What `write_header` writes, `parse_header` reads back: the algorithm if it is the known one, and
-- else the error that names it. What follows the header does not matter.
pub parse_header-write_header :
    (algorithm : ℕ) (body : List ℕ)
    → parse_header (write_header algorithm ++ body) ≡ (
        if algorithm == alg_aegis_128x2
        then ok alg_aegis_128x2
        else err (unknown_algorithm algorithm))
unfolding parse_header write_header bytes_eq
parse_header-write_header algorithm body = ground arith

accepted :
    (bytes : List ℕ) (a : ℕ)
    → parse_header bytes ≡ ok a
    → (a ≡ alg_aegis_128x2) × (take 6 bytes ≡ write_header a)
unfolding parse_header write_header bytes_eq
accepted (b0 ∷ b1 ∷ b2 ∷ b3 ∷ b4 ∷ b5 ∷ r) a h = (ground arith, ground arith)
accepted bytes a h = absurd (ground arith)

accepts :
    (bytes : List ℕ)
    → take 6 bytes ≡ write_header alg_aegis_128x2
    → parse_header bytes ≡ ok alg_aegis_128x2
unfolding parse_header write_header bytes_eq
accepts (b0 ∷ b1 ∷ b2 ∷ b3 ∷ b4 ∷ b5 ∷ r) h = ground arith
accepts bytes h = absurd (ground arith)

-- A header is accepted exactly if its first six bytes are those that `write_header` writes for
-- AEGIS-128X2, and then as that algorithm.
pub parse_header_iff :
    (bytes : List ℕ) (a : ℕ)
    → (parse_header bytes ≡ ok a)
      ↔ ((a ≡ alg_aegis_128x2) × (take 6 bytes ≡ write_header alg_aegis_128x2))
parse_header_iff bytes a = (
  λ h. let (same, six) = accepted bytes a h in (same, rw same at six),
  λ h. rw h.0 (accepts bytes h.1),
)
