-- ===== src/Error/Tests.antt =====
-- Runs of src/error.rs, and its theorem at a concrete error.
use hf_mount_encrypted.Base.{ℕ, Bool, true, false, ◌≡◌, ◌↔◌, ◌⊎◌, refl, some, none, []}
use hf_mount_encrypted.Error.{
  Error, hub, enospc, eacces, eagain, eio, status, retry_after, hub_status, is_transient,
  is_retryable_status, to_errno, errno_of,
}
use hf_mount_encrypted.Error.Retry

-- An HTTP error that is a flag for "timed out".
abbrev TestError : Type 0
TestError = Error (Unit {0}) (Unit {0}) Bool

abbrev timed_out : Bool → Bool
timed_out b = b

abbrev no_connect : Bool → Bool
no_connect b = false

abbrev errno_at : ℕ → TestError
errno_at code = hub_status code []

known_statuses :
    (to_errno timed_out no_connect (errno_at 413) ≡ enospc)
    × (to_errno timed_out no_connect (errno_at 403) ≡ eacces)
    × (to_errno timed_out no_connect (errno_at 503) ≡ eagain)
    × (to_errno timed_out no_connect (errno_at 501) ≡ eio)
    × (status (errno_at 413) ≡ some 413)
    × (retry_after (errno_at 429) ≡ none)
unfolding to_errno errno_of status is_transient is_retryable_status hub_status retry_after
known_statuses = (refl, refl, refl, refl, refl, refl)

abbrev overloaded : TestError
overloaded = hub [] (some 503) none

to_errno_lem_example :
    ((to_errno timed_out no_connect overloaded ≡ eagain)
      ↔ (is_transient timed_out no_connect overloaded ≡ true))
    × ((to_errno timed_out no_connect overloaded ≡ enospc)
        ↔ ((status overloaded ≡ some 413) ⊎ (status overloaded ≡ some 507)))
    × ((to_errno timed_out no_connect overloaded ≡ eacces) ↔ (status overloaded ≡ some 403))
to_errno_lem_example = Retry.to_errno_lem timed_out no_connect overloaded
