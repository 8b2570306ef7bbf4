-- ===== src/Exceptions/Guidance/Text.antt =====
-- The texts of the guidance in aerospike_sdk/exceptions.py, each of which is named as its key there.
use aerospike_client_python.Base.{String, ◌<>◌}

abbrev pub bin_name_count_too_large : String
bin_name_count_too_large =
    "The record would exceed the server's per-record bin-count limit. The "
    <> "bin names themselves are fine -- the record has too many bins."

abbrev pub forbid_durability_violation : String
forbid_durability_violation =
    "A non-durable delete was refused because it would violate durability. "
    <> "Strong-consistency namespaces require durable deletes: enable durable "
    <> "delete on the operation, or on the Behavior the session carries."

abbrev pub forbid_set_count_stop_writes : String
forbid_set_count_stop_writes =
    "The set reached its record-count stop-writes limit. Writes stay refused "
    <> "until the count falls or the limit is raised."

abbrev pub forbid_set_size_stop_writes : String
forbid_set_size_stop_writes =
    "The set reached its size stop-writes limit. Writes stay refused until "
    <> "the set shrinks or the limit is raised."

abbrev pub forbid_clock_skew_stop_writes : String
forbid_clock_skew_stop_writes =
    "Writes are stopped because clocks across the cluster have drifted too "
    <> "far apart. This is a cluster health problem, not a client one -- check "
    <> "time synchronization on the server nodes."

abbrev pub forbid_truncated : String
forbid_truncated =
    "The set or namespace is mid-truncate, so writes are refused until the "
    <> "truncate completes. Retrying after it finishes should succeed."

abbrev pub forbid_xdr_filter_blocked : String
forbid_xdr_filter_blocked =
    "An XDR ship filter at the destination rejected this write. The filter "
    <> "is configured on the destination cluster, not in the client."

abbrev pub forbid_replace_conflict_resolving : String
forbid_replace_conflict_resolving =
    "A replace was refused while the record was being conflict-resolved. "
    <> "Retry, or use an update rather than a replace."

abbrev pub bin_name_too_long_code : String
bin_name_too_long_code =
    "The server rejected the operation over bin naming. This code covers two "
    <> "causes: a bin name longer than 15 characters, or a record with too many "
    <> "bins. Enable extended error detail to get the subcode that tells them " <> "apart."

abbrev pub fail_forbidden_code : String
fail_forbidden_code =
    "The server forbade this operation given its current state. Causes "
    <> "include a durability violation, set-level stop-writes limits, cluster "
    <> "clock skew, an in-progress truncate, XDR filtering, and conflict "
    <> "resolution. Enable extended error detail to get the subcode that "
    <> "identifies which; namespace configuration is visible through "
    <> "session.info().namespace_details(<namespace>)."

abbrev pub unsupported_feature_code : String
unsupported_feature_code =
    "The cluster or namespace does not support something this operation "
    <> "requires. Multi-record transactions, for example, need a "
    <> "strong-consistency namespace on a server build that supports them; "
    <> "check the namespace mode with session.namespace_sc_status(<namespace>)."

abbrev pub parameter_error_detail_hint : String
parameter_error_detail_hint =
    "The server rejected an argument of this operation and knows why, but "
    <> "the reason was not requested. Set error_detail_verbosity to "
    <> "ErrorDetailVerbosity.MESSAGE on the session's Behavior to have the "
    <> "server's explanation returned with this error."
