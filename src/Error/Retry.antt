-- ===== src/Error/Retry.antt =====
-- The errno of an error against the retry rule.
use hf_mount_encrypted.Base.{◌≡◌, ◌↔◌, ◌⊎◌, Bool, true, none, some, arith}
use hf_mount_encrypted.Error.{
  Error, hub, xet, io, json, http, enospc, eacces, eagain, status, is_transient,
  is_retryable_status, errno_of, to_errno,
}

module _ {Io Json Http : Type 0} (is_timeout is_connect : Http → Bool) where
  -- A client is told to try again exactly if the error is transient, that there is no space left
  -- exactly for the statuses 413 and 507, and that access is denied exactly for the status 403.
  pub to_errno_lem :
      (e : Error Io Json Http)
      → ((to_errno is_timeout is_connect e ≡ eagain)
          ↔ (is_transient is_timeout is_connect e ≡ true))
        × ((to_errno is_timeout is_connect e ≡ enospc)
            ↔ ((status e ≡ some 413) ⊎ (status e ≡ some 507)))
        × ((to_errno is_timeout is_connect e ≡ eacces) ↔ (status e ≡ some 403))
  unfolding to_errno errno_of is_transient status is_retryable_status
  to_errno_lem (hub m none d) = (ground arith, ground arith, ground arith)
  to_errno_lem (hub m (some c) d) = (ground arith, ground arith, ground arith)
  to_errno_lem (xet m) = (ground arith, ground arith, ground arith)
  to_errno_lem (io m) = (ground arith, ground arith, ground arith)
  to_errno_lem (json m) = (ground arith, ground arith, ground arith)
  to_errno_lem (http e) = (ground arith, ground arith, ground arith)
