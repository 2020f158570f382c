-- ===== src/Base/Moment.antt =====
-- Points of time and spans, in microseconds, the resolution of Python's datetime and timedelta,
-- and the checks that every queue makes of the time and the lease that it is given.
use mnemex.Base.Failure.{Result, ok, err, validation_error}
use mnemex.Base.Tests.{leb, if◌then◌else◌}
use Prim.Native.Nat.{ℕ, ◌*◌, ◌^◌, min, ◌-◌, ◌≤◌}
use mathlib.Core.Bool.{Bool, true, false, ◌&&◌}
use mathlib.Core.Path.{◌≡◌}
use native.Mathlib.Omega.{arith}

-- A `now: datetime | None` argument: the reading of the clock that stands in for None, a timezone
-- aware value, or a naive one. Instants are counted from a common origin.
pub data Moment : Type 0 where
  clock : ℕ → Moment
  aware : ℕ → Moment
  naive : ℕ → Moment

-- A timedelta: `negsuc n` is -(n + 1) microseconds.
pub data Timedelta : Type 0 where
  pos : ℕ → Timedelta
  negsuc : ℕ → Timedelta

abbrev pub seconds : ℕ → ℕ
seconds n = n * 1_000_000

unfoldable pub checked_now : Moment → Result ℕ
checked_now (clock t) = ok t
checked_now (aware t) = ok t
checked_now (naive t) = err validation_error

-- From one second to one hour.
unfoldable pub checked_lease : Timedelta → Result ℕ
checked_lease (pos d) =
    if leb (seconds 1) d && leb d (seconds 3600) then ok d else err validation_error
checked_lease (negsuc d) = err validation_error

-- `min(INITIAL_RETRY_DELAY_SECONDS * (2 ** max(failures - 1, 0)), MAX_RETRY_DELAY_SECONDS)`,
-- and 0 for an immediate retry. Subtraction stops at 0 as `max` does.
unfoldable pub retry_delay : Bool → ℕ → ℕ
retry_delay true failures = 0
retry_delay false failures = seconds (min (30 * 2 ^ (failures - 1)) 900)

pub checked_lease_range :
    (d : Timedelta) {l : ℕ} → checked_lease d ≡ ok l → (seconds 1 ≤ l) × (l ≤ seconds 3600)
unfolding checked_lease
checked_lease_range (pos d) h = ground arith
checked_lease_range (negsuc d) h = cc

pub retry_delay_le : (b : Bool) (failures : ℕ) → retry_delay b failures ≤ seconds 900
unfolding retry_delay
retry_delay_le true failures = omega arith
retry_delay_le false failures = omega arith
