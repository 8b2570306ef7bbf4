-- ===== src/Tests/Session.antt =====
-- A tick of a coalescing session, and transactions that conflict once.
use aerospike_client_python.Base.{
  ℕ, zero, suc, ℤ, pos, Bool, true, false, Option, none, some, List, [], ◌∷◌, ◌++◌, ◌≡◌, ◌⊎◌, refl,
}
use aerospike_client_python.Base.Int.{ltb_ℤ}
use aerospike_client_python.Session.Coalesce.{
  Loop, initial, Event, run_get, run_put, run_flush, complete, step, run, Fate, taken, failed,
  was_done, write_outcome,
}
use aerospike_client_python.Session.Coalesce as Coalesce
use aerospike_client_python.Session.Coalesce.Frames.{futures}
use aerospike_client_python.Session.Coalesce.Sound.{IsSound}
use aerospike_client_python.Session.Coalesce.Laws.{run-IsSound, flush_delivers}
use aerospike_client_python.Session.Coalesce.Isolation.{
  first_refusal, outcomes, write_outcome-outcomes,
}
use aerospike_client_python.Txn.Errors.{
  sdk_error, mrt_blocked, CommitFailure, commit_failed, is_retryable_txn_error, jittered,
  retry_delay_seconds,
}
use aerospike_client_python.Txn.Plan.{TransactionSettings}
use aerospike_client_python.Txn.Implicit.{returned, raised}
use aerospike_client_python.Txn.Session.{Client, commit_ok, abort_ok, client_error}
use aerospike_client_python.Session.Transact.{
  Attempt, value, threw, ended, value_error, Calls, is_retried, do_in_transaction,
}
use aerospike_client_python.Session.Transact.Laws.{Decides, do_in_transaction-Decides}
use aerospike_client_python.Session.Transact.Commits.{Returns, entered, do_in_transaction-commits}

-- Payloads are numbers of which 0 does not convert; a read window is refused.
abbrev converts : ℕ → Bool
converts zero = false
converts (suc n) = true

abbrev refusal : ℕ → ℕ
refusal b = b

abbrev client : Coalesce.Client ℕ ℕ ℕ
client = record {
  submit_read = λ s ks fs. some 7;
  submit_write = λ s ks fs bs. first_refusal ℕ ℕ ℕ converts refusal bs;
}

-- A direct read, two reads and three writes behind it, of which one read is cancelled.
abbrev tick : List (Event ℕ ℕ ℕ client)
tick =
    run_get true false false 1
    ∷ run_get true false false 2
    ∷ run_put true false 3 30
    ∷ run_get true false false 4
    ∷ run_put true false 5 0
    ∷ run_put true false 6 60
    ∷ complete 0
    ∷ []

abbrev before : Loop ℕ ℕ ℕ
unfolding run
before = run ℕ ℕ ℕ client tick (initial ℕ ℕ ℕ)

tick-flush :
    let t = step ℕ ℕ ℕ client run_flush before in
    (t.fates ≡ (0, was_done) ∷ (2, failed 7) ∷ [])
    × (t.write_fates ≡ (1, taken) ∷ (3, failed 0) ∷ (4, taken) ∷ [])
unfolding before step
tick-flush = (refl, refl)

run-IsSound_example : IsSound ℕ ℕ ℕ client (run ℕ ℕ ℕ client tick (initial ℕ ℕ ℕ))
run-IsSound_example = run-IsSound ℕ ℕ ℕ client tick

flush_delivers_example :
    let s = run ℕ ℕ ℕ client tick (initial ℕ ℕ ℕ) in
    let t = step ℕ ℕ ℕ client run_flush s in
    (futures t.fates ≡ s.awaited) × (futures t.write_fates ≡ s.awaited_writes)
flush_delivers_example = flush_delivers ℕ ℕ ℕ client tick

write_outcome-outcomes_example :
    let bs : List ℕ = 30 ∷ 0 ∷ 60 ∷ [] in
    let fs : List ℕ = 1 ∷ 3 ∷ 4 ∷ [] in
    (write_outcome ℕ ℕ ℕ client
      (3 ∷ 5 ∷ 6 ∷ [])
      fs
      bs
      (client.submit_write (initial ℕ ℕ ℕ) (3 ∷ 5 ∷ 6 ∷ []) fs bs)
      (initial ℕ ℕ ℕ)).write_fates
    ≡ [] ++ outcomes ℕ ℕ ℕ converts refusal fs bs
write_outcome-outcomes_example =
    write_outcome-outcomes ℕ ℕ ℕ converts refusal client (λ s ks fs bs. refl) (3 ∷ 5 ∷ 6 ∷ [])
      (1 ∷ 3 ∷ 4 ∷ []) (30 ∷ 0 ∷ 60 ∷ []) (initial ℕ ℕ ℕ) refl refl (refl, (refl, (refl, tt))) refl

-- The first attempt meets a record that another transaction blocks; the client commits.
abbrev server : Client
server = record {
  Txn = ℕ;
  new_txn = 0;
  commit_failed = λ t. false;
  commit = λ t. (returned commit_ok, 1);
  abort = λ t. (returned abort_ok, 2);
}

abbrev attempt_of : ℕ → Attempt ℕ
attempt_of zero = threw (client_error (sdk_error (some mrt_blocked)))
attempt_of (suc n) = value 5

abbrev calls : Calls ℕ
calls = record { client = λ n. server; operation = λ n s. (attempt_of n, s) }

abbrev settings : TransactionSettings ℕ
settings = record { number_of_attempts = some (pos 3); sleep_between_attempts = none }

abbrev asked : Option ℤ
asked = some (pos 2)

second_attempt : (do_in_transaction calls 20 settings none none).0 ≡ ended 5
unfolding do_in_transaction is_retried
second_attempt = refl

abbrev no_code : CommitFailure
no_code = record { in_doubt = false; commit_error_type = none; result_code = none }

-- The commit of the first attempt fails on the client's side, without a code.
abbrev servers : ℕ → Client
servers zero = record {
  Txn = ℕ;
  new_txn = 0;
  commit_failed = λ t. false;
  commit = λ t. (raised (commit_failed no_code), 1);
  abort = λ t. (returned abort_ok, 2);
}
servers (suc n) = server

abbrev failing_once : Calls ℕ
failing_once = record { client = servers; operation = λ n s. (value 5, s) }

-- The `CommitError` that the failure is converted to is retried.
commit_failure_retried :
    do_in_transaction failing_once 20 settings none none ≡ (ended 5, jittered ∷ [])
unfolding do_in_transaction is_retryable_txn_error retry_delay_seconds
commit_failure_retried = refl

do_in_transaction-Decides_example :
    let ending = (do_in_transaction calls 20 settings asked none).0 in
    ((n : ℤ) × (asked ≡ some n) × (ltb_ℤ n (pos 1) ≡ true) × (ending ≡ value_error))
    ⊎ ((attempts : ℕ) × (n : ℕ) × Decides calls 0 attempts n ending
        × ((asked ≡ none) ⊎ (asked ≡ some (pos attempts))))
do_in_transaction-Decides_example = do_in_transaction-Decides calls 20 settings asked none

do_in_transaction-commits_example :
    (n : ℕ) × Returns (calls.client n) (calls.operation n (entered calls n)) 5
do_in_transaction-commits_example =
    do_in_transaction-commits calls 20 settings none none 5 second_attempt
