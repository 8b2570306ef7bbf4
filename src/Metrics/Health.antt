-- ===== src/Metrics/Health.antt =====
-- `_ExporterHealth` of aerospike_sdk/metrics/export.py, with what a success and a failure do to it.
pub mod Laws
use aerospike_client_python.Base.{ℕ, suc, Bool, true, false, not, leb, if◌then◌else◌}

abbrev pub suspend_after_consecutive_failures : ℕ
suspend_after_consecutive_failures = 3

abbrev pub suspended_retry_every_intervals : ℕ
suspended_retry_every_intervals = 10

pub record Health : Type 0 where
  pub failures : ℕ
  pub suspended : Bool
  pub skipped : ℕ

abbrev pub new_health : Health
new_health = record { failures = 0; suspended = false; skipped = 0 }

-- The answer, and the health after it.
unfoldable pub should_attempt : Health → Bool × Health
should_attempt h =
    if not h.suspended
    then (true, h)
    else if leb suspended_retry_every_intervals (suc h.skipped)
    then (true, record h { skipped = 0 })
    else (false, record h { skipped = suc h.skipped })

-- `record_success` of a health that is there.
unfoldable pub succeed : Health → Health
succeed h = record { failures = 0; suspended = false; skipped = 0 }

-- `record_failure` of a health that is there.
unfoldable pub fail : Health → Health
fail h =
    if h.suspended
    then record h { failures = suc h.failures }
    else if leb suspend_after_consecutive_failures (suc h.failures)
    then record { failures = suc h.failures; suspended = true; skipped = 0 }
    else record h { failures = suc h.failures }

abbrev pub settle : Bool → Health → Health
settle true h = fail h
settle false h = succeed h

-- One cycle of one exporter, whose export fails or not if it is called: whether it is called, and
-- its health afterwards.
unfoldable pub cycle : Bool → Health → Bool × Health
unfolding should_attempt
cycle fails h = let r = should_attempt h in (r.0, if r.0 then settle fails r.1 else r.1)
