-- ===== src/Txn/Errors.antt =====
-- The exceptions that end an attempt, and their classes in aerospike_sdk/txn_shared.py.
use aerospike_client_python.Base.{ℕ, Bool, true, false, not, Option, some}

-- The result codes that the transaction code names, and the rest by number.
pub data ResultCode : Type 0 where
  mrt_blocked mrt_version_mismatch txn_already_committed txn_already_aborted : ResultCode
  code : ℕ → ResultCode

-- The stage of a failed commit: an abandoned roll-forward, or another one.
pub data CommitErrorType : Type 0 where
  roll_forward_abandoned : CommitErrorType
  stage : ℕ → CommitErrorType

-- What an exception carries that the transaction code reads.
pub record CommitFailure : Type 0 where
  pub in_doubt : Bool
  pub commit_error_type : Option CommitErrorType
  pub result_code : Option ResultCode

-- `commit_error` is `CommitError` of the SDK, and `commit_failed` the `CommitFailedError` of
-- aerospike_native that it is converted from; `other` is any other exception, with its
-- `result_code` attribute when it has one.
pub data Exception : Type 0 where
  commit_error : CommitFailure → Exception
  commit_failed : CommitFailure → Exception
  other : Option ResultCode → Exception

-- What `_convert_pnc_exception` of aerospike_sdk/exceptions.py makes of such an exception: a
-- `CommitError`, or another `AerospikeError`. Where the native one has no code, the code it is then
-- given is none of those that the transaction code names.
pub data SdkError : Type 0 where
  sdk_commit_error : CommitFailure → SdkError
  sdk_error : Option ResultCode → SdkError

abbrev pub converted : Exception → SdkError
converted (commit_error f) = sdk_commit_error f
converted (commit_failed f) = sdk_commit_error f
converted (other c) = sdk_error c

abbrev pub as_exception : SdkError → Exception
as_exception (sdk_commit_error f) = commit_error f
as_exception (sdk_error c) = other c

abbrev pub result_code : Exception → Option ResultCode
result_code (commit_error f) = f.result_code
result_code (commit_failed f) = f.result_code
result_code (other c) = c

-- `code in RETRYABLE_TXN_CODES`
abbrev pub is_retryable_code : Option ResultCode → Bool
is_retryable_code (some mrt_blocked) = true
is_retryable_code (some mrt_version_mismatch) = true
is_retryable_code _ = false

abbrev is_abandoned : Option CommitErrorType → Bool
is_abandoned (some roll_forward_abandoned) = true
is_abandoned _ = false

unfoldable pub is_retryable_txn_error : Exception → Bool
is_retryable_txn_error (commit_error f) = elim f.in_doubt [
  | true ↦ false
  | false ↦ not (is_abandoned f.commit_error_type)
]
is_retryable_txn_error (commit_failed f) = is_retryable_code f.result_code
is_retryable_txn_error (other c) = is_retryable_code c

abbrev is_version_mismatch : Option ResultCode → Bool
is_version_mismatch (some mrt_version_mismatch) = true
is_version_mismatch _ = false

-- A pause is none at all, or the configured one with its jitter.
pub data Pause : Type 0 where
  immediate jittered : Pause

unfoldable pub retry_delay_seconds : Exception → Pause
retry_delay_seconds e = elim (is_version_mismatch (result_code e)) [
  | true ↦ immediate
  | false ↦ jittered
]
