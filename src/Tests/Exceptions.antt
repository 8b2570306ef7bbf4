-- ===== src/Tests/Exceptions.antt =====
-- The conversion of a failure of the server, and of one that names no code.
use aerospike_client_python.Base.{ℕ, true, Option, none, some, ◌≡◌, refl}
use aerospike_client_python.Exceptions.{ResultCode, key_busy, rc_to_type}
use aerospike_client_python.Exceptions.Convert.{
  Native, server_error, Attributes, no_exceptions, pnc, fields, convert_pnc_exception,
}
use aerospike_client_python.Exceptions.Guidance.{SubCodes}
use aerospike_client_python.Exceptions.Laws.{by_code, convert_pnc_exception-code}

abbrev sub_codes : SubCodes
sub_codes = record {
  bin_name_count_too_large = 1;
  forbid_durability_violation = 2;
  forbid_set_count_stop_writes = 3;
  forbid_set_size_stop_writes = 4;
  forbid_clock_skew_stop_writes = 5;
  forbid_truncated = 6;
  forbid_xdr_filter_blocked = 1;
  forbid_replace_conflict_resolving = 8;
}

abbrev pub native : Native
native = record {
  Trace = ℕ;
  Stage = ℕ;
  Records = ℕ;
  sub_codes = sub_codes;
  description = λ rc. "described";
}

abbrev pub failure : Option ResultCode → Attributes native
failure code = record {
  text = "hot key";
  code = code;
  in_doubt = true;
  detail = record { sub_code = none; server_message = none; exp_trace = none };
  context = record { node = some "n1"; iteration = some 2; base_message = none };
  commit = record { commit_error_type = none; verify_records = none; roll_records = none };
}

convert_pnc_exception-code_example :
    let e = fields native (
      convert_pnc_exception native
        (pnc (server_error key_busy) (failure none) no_exceptions)
        none) in
    (e.result_code ≡ some key_busy)
    × (e.in_doubt ≡ true)
    × (by_code native (server_error key_busy) ≡ true → e.type ≡ rc_to_type key_busy)
convert_pnc_exception-code_example =
    convert_pnc_exception-code native (server_error key_busy) (failure none) no_exceptions none
      key_busy refl
