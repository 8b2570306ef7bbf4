-- ===== src/Results.antt =====
-- `RecordResult` of aerospike_sdk/record_result.py: one row of a batch, a query or a single call.
pub mod Rows
pub mod Filter
pub mod Laws
pub mod Writes
use aerospike_client_python.Base.{
  ℕ, ℤ, Bool, true, false, ◌&&◌, is_none, String, Option, none, some, if◌then◌else◌,
}
use aerospike_client_python.Exceptions.{ResultCode, ok, key_not_found_error, filtered_out}
use aerospike_client_python.Exceptions.Convert.{
  Native, Detail, AerospikeError, no_errors, no_context, result_code_to_exception,
}

-- The native client; `success_bin` reads the bin `SUCCESS` of a record.
pub record Core : Type 1 where
  pub native : Native
  pub Key : Type 0
  pub Record : Type 0
  pub Value : Type 0
  pub success_bin : Record → Option Value

abbrev pub is_ok_code : ResultCode → Bool
is_ok_code ok = true
is_ok_code _ = false

abbrev pub is_key_not_found : ResultCode → Bool
is_key_not_found key_not_found_error = true
is_key_not_found _ = false

abbrev pub is_filtered_out : ResultCode → Bool
is_filtered_out filtered_out = true
is_filtered_out _ = false

module _ (C : Core) where
  abbrev pub Error : Type 0
  Error = AerospikeError C.native

  -- `payload` is the attribute `record`.
  pub record RecordResult : Type 0 where
    pub key : C.Key
    pub payload : Option C.Record
    pub result_code : ResultCode
    pub in_doubt : Bool
    pub index : ℤ
    pub exception : Option Error
    pub udf_result : Option C.Value
    pub detail : Detail C.native

  -- How a call ends; the user's handler may raise what it likes.
  pub data Outcome (A : Type 0) : Type 0 where
    returned : A → Outcome A
    raised : Error → Outcome A
    value_error type_error handler_error : Outcome A

  -- `raise e`, where `None` cannot be raised.
  abbrev pub raise : {A : Type 0} → Option Error → Outcome A
  raise none = type_error
  raise (some e) = raised e

  -- Statement `p` and then the rest.
  abbrev pub and_then : {A B : Type 0} → Outcome A → (A → Outcome B) → Outcome B
  and_then (returned a) f = f a
  and_then (raised e) f = raised e
  and_then value_error f = value_error
  and_then type_error f = type_error
  and_then handler_error f = handler_error

  unfoldable pub is_ok : RecordResult → Bool
  is_ok r = is_none r.exception && is_ok_code r.result_code

  -- The exception that a code and its detail make.
  abbrev pub code_exception : ResultCode → Bool → Detail C.native → Error
  code_exception rc in_doubt d =
      result_code_to_exception C.native rc "" in_doubt d (no_context C.native) no_errors none

  unfoldable pub to_exception : RecordResult → Option Error
  unfolding is_ok
  to_exception r = if is_ok r then none else elim r.exception [
    | some e ↦ some e
    | none ↦ some (code_exception r.result_code r.in_doubt r.detail)
  ]

  unfoldable pub or_raise : RecordResult → Outcome RecordResult
  unfolding is_ok to_exception
  or_raise r = if is_ok r then returned r else raise (to_exception r)

  abbrev pub record_of : RecordResult → Outcome C.Record
  record_of r = elim r.payload [ none ↦ value_error | some p ↦ returned p ]

  unfoldable pub record_or_raise : RecordResult → Outcome C.Record
  unfolding or_raise
  record_or_raise r = and_then (or_raise r) (λ _. record_of r)

  unfoldable pub as_bool : RecordResult → Outcome Bool
  unfolding is_ok or_raise
  as_bool r =
      if is_ok r
      then returned true
      else if is_key_not_found r.result_code
      then returned false
      else and_then (or_raise r) (λ _. returned false)
