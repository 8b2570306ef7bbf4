-- ===== src/Exceptions/Convert.antt =====
-- `_result_code_to_exception` and `_convert_pnc_exception` of aerospike_sdk/exceptions.py.
use aerospike_client_python.Base.{
  ℕ, Bool, true, false, is_none, ◌&&◌, ◌==◌, String, ◌<>◌, str_eq, Option, none, some,
  if◌then◌else◌,
}
use aerospike_client_python.Exceptions.{
  ResultCode, parameter_error, udf_bad_response, client_error, ErrorType, rc_to_type,
  max_error_rate_error, timeout_error, connection_error, invalid_node_error, commit_error,
  aerospike_error,
}
use aerospike_client_python.Exceptions.Guidance.{
  SubCodes, subcode_guidance, rc_guidance, parameter_error_detail_hint,
}

-- What the module passes on from aerospike_native, and the description of a code.
pub record Native : Type 1 where
  pub Trace : Type 0
  pub Stage : Type 0
  pub Records : Type 0
  pub sub_codes : SubCodes
  pub description : ResultCode → String

-- The first class of aerospike_native, in the order of the tests, that an exception has: a server
-- failure has a code; `foreign` is none of them.
pub data Kind : Type 0 where
  server_error : ResultCode → Kind
  max_error_rate timeout connection invalid_node udf_failed commit_failed generic foreign : Kind

module _ (N : Native) where
  -- The extended error detail of the server.
  pub record Detail : Type 0 where
    pub sub_code : Option ℕ
    pub server_message : Option String
    pub exp_trace : Option N.Trace

  -- The retry context, without the failures of the attempts before.
  pub record Context : Type 0 where
    pub node : Option String
    pub iteration : Option ℕ
    pub base_message : Option String

  -- What only a failed commit has.
  pub record CommitDetail : Type 0 where
    pub commit_error_type : Option N.Stage
    pub verify_records : Option N.Records
    pub roll_records : Option N.Records

  -- An `AerospikeError` with its class, all but its `sub_exceptions`; `client` is the flag of a
  -- `TimeoutError`, and `commit` what a `CommitError` has.
  pub record Fields : Type 0 where
    pub type : ErrorType
    pub message : String
    pub result_code : Option ResultCode
    pub in_doubt : Bool
    pub detail : Detail
    pub context : Context
    pub hint : Option String
    pub client : Bool
    pub commit : Option CommitDetail

  mutual
    pub data AerospikeError : Type 0 where
      an_error : Fields → AerospikeErrors → AerospikeError

    pub data AerospikeErrors : Type 0 where
      no_errors : AerospikeErrors
      errors : AerospikeError → AerospikeErrors → AerospikeErrors

  abbrev pub fields : AerospikeError → Fields
  fields (an_error f _) = f

  -- The attributes of an exception, with the defaults of `getattr` for those it does not have.
  pub record Attributes : Type 0 where
    pub text : String
    pub code : Option ResultCode
    pub in_doubt : Bool
    pub detail : Detail
    pub context : Context
    pub commit : CommitDetail

  mutual
    pub data Exception : Type 0 where
      converted : AerospikeError → Exception
      pnc : Kind → Attributes → Exceptions → Exception

    pub data Exceptions : Type 0 where
      no_exceptions : Exceptions
      exceptions : Exception → Exceptions → Exceptions

  abbrev pub no_detail : Detail
  no_detail = record { sub_code = none; server_message = none; exp_trace = none }

  abbrev pub no_context : Context
  no_context = record { node = none; iteration = none; base_message = none }

  -- `x or y` on optional texts.
  abbrev pub or_text : Option String → Option String → Option String
  or_text none y = y
  or_text (some t) y = if str_eq t "" then y else some t

  abbrev pub is_parameter_error : ResultCode → Bool
  is_parameter_error parameter_error = true
  is_parameter_error _ = false

  abbrev pub code_guidance : ResultCode → Detail → Option String
  code_guidance rc d =
      if is_parameter_error rc && is_none d.sub_code && is_none d.server_message
      then some parameter_error_detail_hint
      else rc_guidance rc

  abbrev pub detail_guidance : ResultCode → Detail → Option ℕ → Option String
  detail_guidance rc d none = code_guidance rc d
  detail_guidance rc d (some n) =
      if n == 0
      then code_guidance rc d
      else or_text (subcode_guidance N.sub_codes rc n) (rc_guidance rc)

  abbrev pub guidance : ResultCode → Detail → Option String → Option String
  guidance rc d (some hint) = some hint
  guidance rc d none = detail_guidance rc d d.sub_code

  abbrev pub with_guidance : String → Option String → String
  with_guidance message none = message
  with_guidance message (some g) =
      if str_eq g "" then message else if str_eq message "" then g else message <> "\n" <> g

  abbrev pub described : ResultCode → String → String
  described rc message = if str_eq message "" then N.description rc else message

  abbrev or_described : ResultCode → Context → Context
  or_described rc c = record c {
    base_message = elim c.base_message [ none ↦ some (N.description rc) | some m ↦ some m ];
  }

  unfoldable pub result_code_to_exception :
      ResultCode
      → String
      → Bool
      → Detail
      → Context
      → AerospikeErrors
      → Option String
      → AerospikeError
  result_code_to_exception rc message in_doubt d c subs hint =
      an_error
        (record {
          type = rc_to_type rc;
          message = with_guidance (described rc message) (guidance rc d hint);
          result_code = some rc;
          in_doubt = in_doubt;
          detail = d;
          context = or_described rc c;
          hint = guidance rc d hint;
          client = false;
          commit = none;
        })
        subs

  -- A constructor called with `_client_error_kwargs`; `client` is the flag of a `TimeoutError`.
  abbrev pub client_failure : ErrorType → Bool → Attributes → AerospikeErrors → AerospikeError
  client_failure type client a subs =
      an_error
        (record {
          type = type;
          message = a.text;
          result_code = a.code;
          in_doubt = a.in_doubt;
          detail = no_detail;
          context = a.context;
          hint = none;
          client = client;
          commit = none;
        })
        subs

  -- `_convert_pnc_exception` of an exception whose `sub_exceptions` are converted.
  abbrev pub convert_kind : Kind → Attributes → AerospikeErrors → Option String → AerospikeError
  unfolding result_code_to_exception
  convert_kind (server_error rc) a subs hint =
      result_code_to_exception rc a.text a.in_doubt a.detail a.context subs hint
  convert_kind max_error_rate a subs hint = client_failure max_error_rate_error false a subs
  convert_kind timeout a subs hint = client_failure timeout_error true a subs
  convert_kind connection a subs hint = client_failure connection_error false a subs
  convert_kind invalid_node a subs hint = client_failure invalid_node_error false a subs
  convert_kind udf_failed a subs hint =
      result_code_to_exception udf_bad_response a.text a.in_doubt no_detail a.context subs none
  convert_kind commit_failed a subs hint =
      let e = fields (client_failure commit_error false a subs) in
      an_error (record e { commit = some a.commit }) subs
  convert_kind generic a subs hint = elim a.code [
    | some rc ↦ result_code_to_exception rc a.text a.in_doubt no_detail a.context subs none
    | none ↦
        let e = fields (client_failure aerospike_error false a subs) in
        an_error (record e { result_code = some client_error }) subs
  ]
  convert_kind foreign a subs hint =
      an_error
        (record {
          type = aerospike_error;
          message = a.text;
          result_code = none;
          in_doubt = false;
          detail = no_detail;
          context = no_context;
          hint = none;
          client = false;
          commit = none;
        })
        no_errors

  unfoldable mutual
    unfolding result_code_to_exception

    pub convert_pnc_exception : Exception → Option String → AerospikeError
    convert_pnc_exception (converted e) hint = e
    convert_pnc_exception (pnc k a subs) hint = convert_kind k a (convert_all subs) hint

    pub convert_all : Exceptions → AerospikeErrors
    convert_all no_exceptions = no_errors
    convert_all (exceptions e es) = errors (convert_pnc_exception e none) (convert_all es)
