-- ===== src/Tests/Txn.antt =====
-- A contended transaction, a client that commits, and the theorems on them.
use aerospike_client_python.Base.{ℕ, zero, suc, ◌≡◌, refl, ◌≢◌, pos, true, false, none, some}
use aerospike_client_python.Txn.Errors.{
  mrt_blocked, txn_already_committed, CommitFailure, commit_error, commit_failed, other,
  is_retryable_txn_error,
}
use aerospike_client_python.Txn.Plan.{TransactionSettings}
use aerospike_client_python.Txn.Implicit.{
  returned, raised, World, result, failure, unreachable, run_in_implicit_txn,
}
use aerospike_client_python.Txn.Implicit.Laws.{
  creations, commits, results, IsCommitted, commits-run_in_implicit_txn,
  run_in_implicit_txn_returns, run_in_implicit_txn_clean_failure,
}
use aerospike_client_python.Txn.Session.{
  commit_ok, abort_ok, Client, Session, new_session, commit, enter,
}
use aerospike_client_python.Txn.Session.Laws.{
  Reach, start, step, by_enter, by_commit, Reach-finalized,
}

abbrev settings : TransactionSettings ℕ
settings = record { number_of_attempts = some (pos 3); sleep_between_attempts = none }

-- The first attempt finds its record blocked, and the second goes through.
abbrev contended : World ℕ
contended = record {
  attempt_fn =
      λ n log. elim n [ zero ↦ raised (other (some mrt_blocked)) | suc m ↦ returned (suc m) ];
  commit = λ n log. returned tt;
}

contended_result : (run_in_implicit_txn contended 20 settings).0 ≡ result 1
unfolding run_in_implicit_txn is_retryable_txn_error
contended_result = refl

commits-run_in_implicit_txn_example :
    let r = run_in_implicit_txn contended 20 settings in
    (commits r.1 ≡ results r.0) × IsCommitted contended r.0 r.1
commits-run_in_implicit_txn_example = commits-run_in_implicit_txn contended 20 settings

run_in_implicit_txn_returns_example : (run_in_implicit_txn contended 20 settings).0 ≢ unreachable
run_in_implicit_txn_returns_example = run_in_implicit_txn_returns contended 20 settings

abbrev clean : CommitFailure
clean = record { in_doubt = false; commit_error_type = none; result_code = none }

-- Every commit fails on the client's side.
abbrev unlucky : World ℕ
unlucky = record {
  attempt_fn = λ n log. returned n;
  commit = λ n log. raised (commit_failed clean);
}

run_in_implicit_txn_clean_failure_example :
    ((run_in_implicit_txn unlucky 20 settings).0 ≡ failure (commit_failed clean))
    × (creations (run_in_implicit_txn unlucky 20 settings).1 ≡ 1)
    × (is_retryable_txn_error (commit_error clean) ≡ true)
run_in_implicit_txn_clean_failure_example =
    run_in_implicit_txn_clean_failure unlucky 20 settings clean 0 refl refl refl refl refl

-- Transactions are numbered by what was last done to them; the client answers every call.
abbrev willing : Client
willing = record {
  Txn = ℕ;
  new_txn = 0;
  commit_failed = λ t. false;
  commit = λ t. (returned commit_ok, 1);
  abort = λ t. (returned abort_ok, 2);
}

abbrev committed : Session willing
committed = record (new_session willing) {
  finalized = true;
  final_code = txn_already_committed;
  recorded = 1;
}

committed-Reach : Reach willing committed
unfolding commit enter
committed-Reach =
    step (step start (by_enter (new_session willing)))
      (by_commit (enter willing (new_session willing)).1)

Reach-finalized_example : committed.txn ≡ none
Reach-finalized_example = Reach-finalized willing committed-Reach refl
