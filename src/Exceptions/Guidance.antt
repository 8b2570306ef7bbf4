-- ===== src/Exceptions/Guidance.antt =====
-- The guidance of aerospike_sdk/exceptions.py: `_SUBCODE_GUIDANCE`, `_RC_GUIDANCE` and the hint for a
-- refused argument.
mod Text
pub use Text.{parameter_error_detail_hint}
use aerospike_client_python.Exceptions.Guidance.Text
use aerospike_client_python.Base.{ℕ, ◌==◌, String, Option, none, some, if◌then◌else◌}
use aerospike_client_python.Exceptions.{
  ResultCode, bin_name_too_long, fail_forbidden, unsupported_feature,
}

-- The members of the native `SubCode` that the module names.
pub record SubCodes : Type 0 where
  pub bin_name_count_too_large : ℕ
  pub forbid_durability_violation : ℕ
  pub forbid_set_count_stop_writes : ℕ
  pub forbid_set_size_stop_writes : ℕ
  pub forbid_clock_skew_stop_writes : ℕ
  pub forbid_truncated : ℕ
  pub forbid_xdr_filter_blocked : ℕ
  pub forbid_replace_conflict_resolving : ℕ

-- `_SUBCODE_GUIDANCE.get((result_code, sub_code))`; of two equal keys a dict keeps the last.
unfoldable pub subcode_guidance : SubCodes → ResultCode → ℕ → Option String
subcode_guidance S bin_name_too_long n =
    if n == S.bin_name_count_too_large then some Text.bin_name_count_too_large else none
subcode_guidance S fail_forbidden n =
    if n == S.forbid_replace_conflict_resolving
    then some Text.forbid_replace_conflict_resolving
    else if n == S.forbid_xdr_filter_blocked
    then some Text.forbid_xdr_filter_blocked
    else if n == S.forbid_truncated
    then some Text.forbid_truncated
    else if n == S.forbid_clock_skew_stop_writes
    then some Text.forbid_clock_skew_stop_writes
    else if n == S.forbid_set_size_stop_writes
    then some Text.forbid_set_size_stop_writes
    else if n == S.forbid_set_count_stop_writes
    then some Text.forbid_set_count_stop_writes
    else if n == S.forbid_durability_violation
    then some Text.forbid_durability_violation
    else none
subcode_guidance S _ n = none

-- `_RC_GUIDANCE.get(result_code)`
unfoldable pub rc_guidance : ResultCode → Option String
rc_guidance bin_name_too_long = some Text.bin_name_too_long_code
rc_guidance fail_forbidden = some Text.fail_forbidden_code
rc_guidance unsupported_feature = some Text.unsupported_feature_code
rc_guidance _ = none
