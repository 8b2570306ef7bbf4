-- ===== src/Txn/Implicit.antt =====
-- The retry loop of aerospike_sdk/implicit_txn.py, over what the caller's attempt, the native
-- client's commit and its abort answer.
pub mod Laws
use aerospike_client_python.Base.{
  ℕ, zero, suc, ◌+◌, Bool, true, false, none, List, [], ◌∷◌, leb, if◌then◌else◌,
}
use aerospike_client_python.Txn.Errors.{
  Exception, other, is_retryable_txn_error, Pause, retry_delay_seconds,
}
use aerospike_client_python.Txn.Plan.{
  TransactionSettings, Plan, plan, bad_max_attempts, resolve_retry_plan,
}
use aerospike_client_python.Base.Int.{pos_part}

-- How a call ends.
pub data Try (T : Type 0) : Type 0 where
  returned : T → Try T
  raised : Exception → Try T

-- What the loop does to the outside, the newest event first. A transaction is known by the attempt
-- that created it; `committed` is a commit that the client reports as done, `commit_raised` one that
-- raises and may take effect all the same; `paused` is the wait before the next attempt.
pub data Event : Type 0 where
  created : ℕ → Event
  ran : ℕ → Event
  committed : ℕ → Event
  commit_raised : ℕ → Event
  aborted : ℕ → Event
  paused : Pause → Event

abbrev pub Log : Type 0
Log = List Event

-- The answers may depend on all that happened before the call.
pub record World (T : Type 0) : Type 0 where
  pub attempt_fn : ℕ → Log → Try T
  pub commit : ℕ → Log → Try Unit

-- The loop's own exits; `unreachable` is its last line.
pub data Exit (T : Type 0) : Type 0 where
  result : T → Exit T
  failure : Exception → Exit T
  unreachable : Exit T

module _ {T : Type 0} (w : World T) where
  -- What the attempt and then the commit answer; the commit is asked only after a result.
  abbrev pub settle : ℕ → Log → Try T → Try Unit → Try T × Log
  settle n log (raised e) c = (raised e, log)
  settle n log (returned t) (raised e) = (raised e, commit_raised n ∷ log)
  settle n log (returned t) (returned _) = (returned t, committed n ∷ log)

  -- The body of the `try`.
  unfoldable pub attempt_and_commit : ℕ → Log → Try T × Log
  attempt_and_commit n log =
      let log' = ran n ∷ created n ∷ log in
      settle n log' (w.attempt_fn n (created n ∷ log)) (w.commit n log')

  -- Whether the abort succeeds or fails is logged and dropped, so it has no answer here.
  abbrev pub abort_quietly : ℕ → Log → Log
  abort_quietly n log = aborted n ∷ log

  unfoldable pub should_retry : Exception → ℕ → ℕ → Bool
  should_retry e attempt attempts =
      if leb attempts (attempt + 1) then false else is_retryable_txn_error e

  -- What follows the `try`; `again` is the rest of the loop.
  abbrev pub conclude : ℕ → ℕ → (Log → Exit T × Log) → Try T × Log → Exit T × Log
  conclude attempt attempts again (returned t, log) = (result t, log)
  conclude attempt attempts again (raised e, log) =
      let log' = abort_quietly attempt log in
      if should_retry e attempt attempts
      then again (paused (retry_delay_seconds e) ∷ log')
      else (failure e, log')

  -- `for attempt in range(attempts)`: `left` is how many attempts the range still has.
  unfoldable pub run_from : ℕ → ℕ → ℕ → Log → Exit T × Log
  unfolding attempt_and_commit should_retry
  run_from zero attempt attempts log = (unreachable, log)
  run_from (suc left) attempt attempts log =
      conclude attempt attempts (λ l. run_from left (suc attempt) attempts l)
        (attempt_and_commit attempt log)

module _ {T Seconds : Type 0} (w : World T) (default_sleep_seconds : Seconds) where
  -- A plan is never refused here, where no number of attempts is passed.
  abbrev pub run_plan : Plan Seconds → Exit T × Log
  run_plan (plan attempts _) = run_from w (pos_part attempts) 0 (pos_part attempts) []
  run_plan bad_max_attempts = (failure (other none), [])

  unfoldable pub run_in_implicit_txn : TransactionSettings Seconds → Exit T × Log
  unfolding run_from resolve_retry_plan
  run_in_implicit_txn transactions =
      run_plan (resolve_retry_plan default_sleep_seconds transactions none none)
