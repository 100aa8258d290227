-- ===== src/Error.antt =====
-- src/error.rs: the errors of the remote calls, which of them are worth another try, and the errno
-- that the file system answers with. The payloads of the crates' own errors, and the two questions
-- that the code asks a `reqwest::Error`, are parameters.
mod Tests
pub mod Retry
use hf_mount_encrypted.Base.{
  ℕ, Bool, true, false, ◌||◌, Option, none, some, List, [], ◌∷◌, ◌==◌, if◌then◌else◌,
}

pub data Error (Io Json Http : Type 0) : Type 0 where
  hub : List ℕ → Option ℕ → Option ℕ → Error Io Json Http
  xet : List ℕ → Error Io Json Http
  io : Io → Error Io Json Http
  json : Json → Error Io Json Http
  http : Http → Error Io Json Http

-- The constants of `libc` that `to_errno` names.
pub data Errno : Type 0 where
  enospc eacces eagain eio : Errno

unfoldable pub is_retryable_status : ℕ → Bool
is_retryable_status status =
    status == 408
    || status == 429
    || status == 500
    || status == 502
    || status == 503
    || status == 504

unfoldable pub is_transient_http : {Http : Type 0} → (Http → Bool) → (Http → Bool) → Http → Bool
is_transient_http is_timeout is_connect e = is_timeout e || is_connect e

-- The arms of the `match` of `to_errno`, for the status and what `is_transient` says.
unfoldable pub errno_of : Option ℕ → Bool → Errno
errno_of none transient = if transient then eagain else eio
errno_of (some code) transient =
    if code == 413 || code == 507
    then enospc
    else if code == 403
    then eacces
    else if transient
    then eagain
    else eio

module _ {Io Json Http : Type 0} where
  unfoldable pub hub_message : List ℕ → Error Io Json Http
  hub_message msg = hub msg none none

  unfoldable pub hub_status : ℕ → List ℕ → Error Io Json Http
  hub_status status msg = hub msg (some status) none

  unfoldable pub retry_after : Error Io Json Http → Option ℕ
  retry_after (hub _ _ delay) = delay
  retry_after (xet _) = none
  retry_after (io _) = none
  retry_after (json _) = none
  retry_after (http _) = none

  unfoldable pub status : Error Io Json Http → Option ℕ
  status (hub _ code _) = code
  status (xet _) = none
  status (io _) = none
  status (json _) = none
  status (http _) = none

  module _ (is_timeout is_connect : Http → Bool) where
    unfoldable pub is_transient : Error Io Json Http → Bool
    unfolding is_transient_http is_retryable_status
    is_transient (http e) = is_transient_http is_timeout is_connect e
    is_transient (hub _ none _) = false
    is_transient (hub _ (some code) _) = is_retryable_status code
    is_transient (xet _) = false
    is_transient (io _) = false
    is_transient (json _) = false

    unfoldable pub to_errno : Error Io Json Http → Errno
    unfolding errno_of
    to_errno e = errno_of (status e) (is_transient e)
