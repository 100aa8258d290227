-- ===== src/Poll/Backoff.antt =====
-- src/virtual_fs/poll.rs: the delays of the loops. A `Duration` is its nanoseconds.
use hf_mount_encrypted.Base.{ℕ, ◌+◌, ◌*◌, ◌-◌, ◌^◌, Bool, min, ltb}

abbrev pub duration_max : ℕ
duration_max = (2 ^ 64 - 1) * 1000000000 + 999999999

pub record Backoff : Type 0 where
  pub base : ℕ
  pub exp : ℕ

abbrev pub max_exp : ℕ
max_exp = 6

unfoldable pub new : ℕ → Backoff
new base = record { base = base; exp = 0 }

unfoldable pub delay : Backoff → ℕ
delay b = min (b.base * 2 ^ b.exp) duration_max

-- The delay, and the state behind it.
unfoldable pub escalate : Backoff → ℕ × Backoff
escalate b = (delay b, record b { exp = min (b.exp + 1) max_exp })

unfoldable pub max_delay : Backoff → ℕ
max_delay b = min (b.base * 2 ^ max_exp) duration_max

unfoldable pub is_backing_off : Backoff → Bool
is_backing_off b = ltb 0 b.exp

unfoldable pub reset : Backoff → Backoff
reset b = record b { exp = 0 }
