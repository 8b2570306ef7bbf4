-- ===== src/Exceptions.antt =====
-- The typed exceptions of aerospike_sdk/exceptions.py, and the codes of aerospike_native that they
-- stand for.
pub mod Guidance
pub mod Convert
pub mod Laws
use aerospike_client_python.Base.{ℕ}

-- The codes that the module names, and the rest by number.
pub data ResultCode : Type 0 where
  ok client_error parameter_error fail_forbidden unsupported_feature txn_failed : ResultCode
  txn_already_aborted txn_already_committed scan_terminated query_terminated serialize_error :
      ResultCode
  generation_error not_authenticated invalid_user invalid_password invalid_credential : ResultCode
  expired_password role_violation not_allowlisted illegal_state user_already_exists : ResultCode
  forbidden_password security_not_supported security_not_enabled : ResultCode
  security_scheme_not_supported expired_session invalid_role role_already_exists : ResultCode
  invalid_privilege invalid_allowlist quota_exceeded quotas_not_enabled invalid_quota : ResultCode
  timeout query_timeout invalid_namespace query_aborted query_generic scan_abort : ResultCode
  query_netio_err query_duplicate udf_bad_response batch_disabled key_not_found_error : ResultCode
  key_exists_error record_too_big filtered_out bin_name_too_long bin_exists_error : ResultCode
  bin_not_found bin_type_error op_not_applicable element_not_found element_exists : ResultCode
  server_mem_error device_overload query_queue_full batch_queues_full : ResultCode
  batch_max_requests_exceeded key_busy xdr_key_busy index_not_found index_found index_oom :
      ResultCode
  index_max_count index_name_max_len index_not_readable index_generic mrt_blocked : ResultCode
  mrt_expired mrt_version_mismatch mrt_too_many_writes mrt_aborted mrt_committed : ResultCode
  mrt_already_locked mrt_monitor_exists : ResultCode
  unlisted : ℕ → ResultCode

-- The classes of the module.
pub data ErrorType : Type 0 where
  aerospike_error timeout_error connection_error invalid_node_error invalid_namespace_error :
      ErrorType
  security_error authentication_error authorization_error generation_error quota_error : ErrorType
  serialization_error record_not_found_error record_exists_error record_too_big_error : ErrorType
  filtered_out_error bin_error bin_exists_error bin_not_found_error bin_type_error : ErrorType
  bin_op_invalid_error element_error element_not_found_error element_exists_error : ErrorType
  capacity_error key_busy_error secondary_index_error index_not_found_error : ErrorType
  index_already_exists_error query_error query_terminated_error udf_error batch_error : ErrorType
  backoff_error max_error_rate_error transaction_error commit_error : ErrorType

-- `_RC_TO_TYPE.get(result_code, AerospikeError)`
unfoldable pub rc_to_type : ResultCode → ErrorType
rc_to_type txn_failed = transaction_error
rc_to_type txn_already_aborted = transaction_error
rc_to_type txn_already_committed = transaction_error
rc_to_type scan_terminated = query_terminated_error
rc_to_type query_terminated = query_terminated_error
rc_to_type serialize_error = serialization_error
rc_to_type generation_error = generation_error
rc_to_type not_authenticated = authentication_error
rc_to_type invalid_user = authentication_error
rc_to_type invalid_password = authentication_error
rc_to_type invalid_credential = authentication_error
rc_to_type expired_password = authentication_error
rc_to_type role_violation = authorization_error
rc_to_type not_allowlisted = authorization_error
rc_to_type illegal_state = security_error
rc_to_type user_already_exists = security_error
rc_to_type forbidden_password = security_error
rc_to_type security_not_supported = security_error
rc_to_type security_not_enabled = security_error
rc_to_type security_scheme_not_supported = security_error
rc_to_type expired_session = security_error
rc_to_type invalid_role = security_error
rc_to_type role_already_exists = security_error
rc_to_type invalid_privilege = security_error
rc_to_type invalid_allowlist = security_error
rc_to_type quota_exceeded = quota_error
rc_to_type quotas_not_enabled = quota_error
rc_to_type invalid_quota = quota_error
rc_to_type timeout = timeout_error
rc_to_type query_timeout = timeout_error
rc_to_type invalid_namespace = invalid_namespace_error
rc_to_type query_aborted = query_terminated_error
rc_to_type query_generic = query_error
rc_to_type scan_abort = query_error
rc_to_type query_netio_err = query_error
rc_to_type query_duplicate = query_error
rc_to_type udf_bad_response = udf_error
rc_to_type batch_disabled = batch_error
rc_to_type key_not_found_error = record_not_found_error
rc_to_type key_exists_error = record_exists_error
rc_to_type record_too_big = record_too_big_error
rc_to_type filtered_out = filtered_out_error
rc_to_type bin_name_too_long = bin_error
rc_to_type bin_exists_error = bin_exists_error
rc_to_type bin_not_found = bin_not_found_error
rc_to_type bin_type_error = bin_type_error
rc_to_type op_not_applicable = bin_op_invalid_error
rc_to_type element_not_found = element_not_found_error
rc_to_type element_exists = element_exists_error
rc_to_type server_mem_error = capacity_error
rc_to_type device_overload = capacity_error
rc_to_type query_queue_full = capacity_error
rc_to_type batch_queues_full = capacity_error
rc_to_type batch_max_requests_exceeded = capacity_error
rc_to_type key_busy = key_busy_error
rc_to_type xdr_key_busy = key_busy_error
rc_to_type index_not_found = index_not_found_error
rc_to_type index_found = index_already_exists_error
rc_to_type index_oom = secondary_index_error
rc_to_type index_max_count = secondary_index_error
rc_to_type index_name_max_len = secondary_index_error
rc_to_type index_not_readable = secondary_index_error
rc_to_type index_generic = secondary_index_error
rc_to_type mrt_blocked = transaction_error
rc_to_type mrt_expired = transaction_error
rc_to_type mrt_version_mismatch = transaction_error
rc_to_type mrt_too_many_writes = transaction_error
rc_to_type mrt_aborted = transaction_error
rc_to_type mrt_committed = transaction_error
rc_to_type mrt_already_locked = transaction_error
rc_to_type mrt_monitor_exists = transaction_error
rc_to_type _ = aerospike_error
