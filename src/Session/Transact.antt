-- ===== src/Session/Transact.antt =====
-- `do_in_transaction`: of aerospike_sdk/aio/session.py, which runs an operation in a transaction
-- and retries it, and of aerospike_sdk/aio/transactional_session.py, which joins the transaction.
pub mod Laws
pub mod Commits
use aerospike_client_python.Base.{
  ℕ, zero, suc, ◌+◌, ℤ, Bool, true, false, ◌||◌, not, Option, none, some, is_none, List, [], ◌∷◌,
  leb, if◌then◌else◌,
}
use aerospike_client_python.Base.Int.{pos_part}
use aerospike_client_python.Txn.Errors.{
  Exception, other, as_exception, is_retryable_txn_error, Pause, retry_delay_seconds,
}
use aerospike_client_python.Txn.Plan.{
  TransactionSettings, Plan, plan, bad_max_attempts, resolve_retry_plan,
}
use aerospike_client_python.Txn.Session.{
  Error, client_error, native_error, transaction_error, runtime_error, key_error, Client, Reply,
  answer, error, Session, new_session, enter, exit,
}

-- How the caller's operation ends, and the `async with` around it. `native_error`, `runtime_error`
-- and `key_error` stand for what is no `AerospikeError`.
pub data Attempt (T : Type 0) : Type 0 where
  value : T → Attempt T
  threw : Error → Attempt T

-- How the call ends: `unreachable` is the line after the loop.
pub data Ending (T : Type 0) : Type 0 where
  ended : T → Ending T
  raised : Error → Ending T
  value_error unreachable : Ending T

-- What `except AerospikeError` catches, as the tests of a retry read it.
abbrev pub caught : Error → Option Exception
caught (client_error e) = some (as_exception e)
caught (transaction_error c) = some (other (some c))
caught (native_error _) = none
caught runtime_error = none
caught key_error = none

unfoldable pub is_retried : Error → Bool
unfolding is_retryable_txn_error
is_retried e = elim (caught e) [ none ↦ false | some x ↦ is_retryable_txn_error x ]

-- The client as each attempt finds it, and what the operation does with the session it is given.
pub record Calls (T : Type 0) : Type 1 where
  pub client : ℕ → Client
  pub operation : (n : ℕ) → Session (client n) → Attempt T × Session (client n)

module _ {T : Type 0} (w : Calls T) where
  -- `tx._count_on_enter = False`
  abbrev pub new_tx : (n : ℕ) → Session (w.client n)
  new_tx n = record (new_session (w.client n)) { count_on_enter = false }

  -- What `__aexit__` raises takes the place of what the block raised.
  abbrev pub after_exit :
      {C : Client} → Attempt T → Option Error × Session C → Attempt T × Session C
  after_exit a (none, s) = (a, s)
  after_exit a (some e, s) = (threw e, s)

  abbrev pub leave : {C : Client} → Attempt T × Session C → Attempt T × Session C
  unfolding exit
  leave {C} (value t, s) = after_exit (value t) (exit C false s)
  leave {C} (threw e, s) = after_exit (threw e) (exit C true s)

  abbrev pub run_block :
      (n : ℕ) → Reply Unit × Session (w.client n) → Attempt T × Session (w.client n)
  unfolding leave
  run_block n (error e, s) = (threw e, s)
  run_block n (answer _, s) = leave (w.operation n s)

  -- The body of the `try`.
  unfoldable pub attempt : (n : ℕ) → Attempt T × Session (w.client n)
  unfolding run_block enter
  attempt n = run_block n (enter (w.client n) (new_tx n))

  -- What follows the `try`, with the pauses made so far, newest first.
  abbrev pub conclude :
      ℕ → ℕ → (List Pause → Ending T × List Pause) → List Pause → Attempt T → Ending T × List Pause
  conclude n attempts again pauses (value t) = (ended t, pauses)
  conclude n attempts again pauses (threw e) = elim (caught e) [
    | none ↦ (raised e, pauses)
    | some x ↦
        if not (is_retryable_txn_error x) || leb attempts (n + 1)
        then (raised e, pauses)
        else again (retry_delay_seconds x ∷ pauses)
  ]

  -- `for attempt in range(attempts)`: `left` is how many attempts the range still has.
  unfoldable pub run_from : ℕ → ℕ → ℕ → List Pause → Ending T × List Pause
  unfolding attempt
  run_from zero n attempts pauses = (unreachable, pauses)
  run_from (suc left) n attempts pauses =
      conclude n attempts (run_from left (suc n) attempts) pauses (attempt n).0

  module _ {Seconds : Type 0} (default_sleep_seconds : Seconds) where
    abbrev pub run_plan : Plan Seconds → Ending T × List Pause
    unfolding run_from
    run_plan (plan attempts _) = run_from (pos_part attempts) 0 (pos_part attempts) []
    run_plan bad_max_attempts = (value_error, [])

    unfoldable pub do_in_transaction :
        TransactionSettings Seconds → Option ℤ → Option Seconds → Ending T × List Pause
    unfolding run_plan resolve_retry_plan
    do_in_transaction transactions max_attempts sleep =
        run_plan (resolve_retry_plan default_sleep_seconds transactions max_attempts sleep)

-- The nested call joins the transaction.
unfoldable pub join :
    {T : Type 0} {C : Client}
    → (Session C → Attempt T × Session C)
    → Session C
    → Attempt T × Session C
join operation s = if is_none s.txn || s.finalized then (threw runtime_error, s) else operation s
