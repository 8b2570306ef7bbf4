-- ===== src/Txn/Session.antt =====
-- `TransactionalSession` of aerospike_sdk/aio/transactional_session.py with its base in
-- aerospike_sdk/transactional_session_shared.py: the lifecycle of one transaction.
pub mod Laws
use aerospike_client_python.Base.{
  ℕ, suc, Bool, true, false, ◌&&◌, not, Option, none, some, is_some, if◌then◌else◌,
}
use aerospike_client_python.Txn.Errors.{
  ResultCode, txn_already_committed, txn_already_aborted, Exception, SdkError, converted,
}
use aerospike_client_python.Txn.Implicit.{Try, returned, raised}

-- The statuses of aerospike_native.
pub data CommitStatus : Type 0 where
  commit_ok commit_already_committed commit_close_abandoned : CommitStatus
  commit_roll_forward_abandoned : CommitStatus

pub data AbortStatus : Type 0 where
  abort_ok abort_already_aborted abort_roll_back_abandoned abort_close_abandoned : AbortStatus
  abort_commit_failed : AbortStatus

pub data TxnStatus : Type 0 where
  status_committed status_aborted status_already_committed status_already_aborted : TxnStatus
  roll_forward_close_abandoned roll_back_abandoned roll_back_close_abandoned : TxnStatus

-- What the session's methods and a block raise: an exception of the client, converted; the refusals
-- of this class, with their code; an exception of aerospike_native that nothing has converted;
-- Python's own.
pub data Error : Type 0 where
  client_error : SdkError → Error
  native_error : Exception → Error
  transaction_error : ResultCode → Error
  runtime_error key_error : Error

-- `none` is a `KeyError`.
abbrev pub from_commit : CommitStatus → Option TxnStatus
from_commit commit_ok = some status_committed
from_commit commit_already_committed = some status_already_committed
from_commit commit_close_abandoned = some roll_forward_close_abandoned
from_commit commit_roll_forward_abandoned = none

abbrev pub from_abort : AbortStatus → Option TxnStatus
from_abort abort_ok = some status_aborted
from_abort abort_already_aborted = some status_already_aborted
from_abort abort_roll_back_abandoned = some roll_back_abandoned
from_abort abort_close_abandoned = some roll_back_close_abandoned
from_abort abort_commit_failed = none

-- The native client: `Txn` is a transaction as the client and the server hold it, and
-- `commit_failed` its state `COMMIT_FAILED`.
pub record Client : Type 1 where
  pub Txn : Type 0
  pub new_txn : Txn
  pub commit_failed : Txn → Bool
  pub commit : Txn → Try CommitStatus × Txn
  pub abort : Txn → Try AbortStatus × Txn

-- How a method ends.
pub data Reply (A : Type 0) : Type 0 where
  answer : A → Reply A
  error : Error → Reply A

module _ (C : Client) where
  pub record Session : Type 0 where
    pub txn : Option C.Txn
    pub finalized : Bool
    pub final_code : ResultCode
    -- whether entering counts the transaction, and how many the usage counters have taken
    pub count_on_enter : Bool
    pub recorded : ℕ

  -- A new session: the class's `_final_code` until a commit sets it.
  abbrev pub new_session : Session
  new_session = record {
    txn = none;
    finalized = false;
    final_code = txn_already_aborted;
    count_on_enter = true;
    recorded = 0;
  }

  abbrev pub active : Session → Bool
  active s = is_some s.txn && not s.finalized

  abbrev pub answer_of : Option TxnStatus → Reply TxnStatus
  answer_of none = error key_error
  answer_of (some status) = answer status

  abbrev finalized_error : {A : Type 0} → Session → Reply A
  finalized_error s = error (transaction_error s.final_code)

  -- The guard of every operation; the rest of the operation is the plain session's.
  unfoldable pub require_open : Session → Reply Unit
  require_open s = if s.finalized then finalized_error s else answer tt

  abbrev pub is_committed : ResultCode → Bool
  is_committed txn_already_committed = true
  is_committed _ = false

  abbrev pub commit_after_finalize : Session → Reply TxnStatus
  commit_after_finalize s =
      if is_committed s.final_code then answer status_already_committed else finalized_error s

  abbrev pub abort_after_finalize : Session → Reply TxnStatus
  abort_after_finalize s =
      if is_committed s.final_code then finalized_error s else answer status_already_aborted

  -- `_commit_is_retryable` of a session with a transaction, which the call has left as it is here.
  abbrev pub keep_if_in_doubt : Session → C.Txn → Session
  keep_if_in_doubt s txn =
      if C.commit_failed txn
      then record s { txn = some txn }
      else record s { txn = none; finalized = true }

  abbrev pub after_commit : Session → Try CommitStatus × C.Txn → Reply TxnStatus × Session
  after_commit s (raised e, txn) = (error (client_error (converted e)), keep_if_in_doubt s txn)
  after_commit s (returned status, txn) = (
    answer_of (from_commit status),
    record s { txn = none; finalized = true; final_code = txn_already_committed },
  )

  unfoldable pub commit : Session → Reply TxnStatus × Session
  commit s =
      if s.finalized
      then (commit_after_finalize s, s)
      else elim s.txn [ none ↦ (error runtime_error, s) | some txn ↦ after_commit s (C.commit txn) ]

  abbrev pub after_abort : Session → Try AbortStatus × C.Txn → Reply TxnStatus × Session
  after_abort s (raised e, txn) = (error (client_error (converted e)), keep_if_in_doubt s txn)
  after_abort s (returned status, txn) =
      (answer_of (from_abort status), record s { txn = none; finalized = true })

  unfoldable pub abort : Session → Reply TxnStatus × Session
  abort s =
      if s.finalized
      then (abort_after_finalize s, s)
      else elim s.txn [ none ↦ (error runtime_error, s) | some txn ↦ after_abort s (C.abort txn) ]

  -- `usage.record_transaction`, where the session counts itself.
  abbrev pub record_transaction : Session → Session
  record_transaction s = record s {
    recorded = if s.count_on_enter then suc s.recorded else s.recorded;
  }

  -- `__aenter__`
  unfoldable pub enter : Session → Reply Unit × Session
  enter s = elim s.txn [
    | some _ ↦ (error runtime_error, s)
    | none ↦ (answer tt, record_transaction (record s { txn = some C.new_txn; finalized = false }))
  ]

  -- The `finally` of `__aexit__`.
  abbrev pub closed : {A : Type 0} → A × Session → A × Session
  closed (a, s) = (a, record s { txn = none; finalized = true })

  abbrev pub error_of : Reply TxnStatus × Session → Option Error × Session
  error_of (answer _, s) = (none, s)
  error_of (error e, s) = (some e, s)

  -- The `try` of `__aexit__`: its status is dropped; `failed`: the block raised.
  unfoldable pub end_block : Bool → Session → Option C.Txn → Option Error × Session
  unfolding commit abort
  end_block failed s none = (none, s)
  end_block false s (some txn) = error_of (commit s)
  end_block true s (some txn) = if C.commit_failed txn then (none, s) else error_of (abort s)

  -- `__aexit__`: the error that it raises, if it raises one.
  unfoldable pub exit : Bool → Session → Option Error × Session
  unfolding end_block
  exit failed s = if active s then closed (end_block failed s s.txn) else (none, s)
