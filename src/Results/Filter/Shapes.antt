-- ===== src/Results/Filter/Shapes.antt =====
-- What rows, calls of a handler and outcomes in aerospike_sdk/query_shared.py say, the objects of their
-- exceptions aside.
use aerospike_client_python.Base.{ℤ, Bool, false, Option, none, some, List, map, ◌≡◌, refl}
use aerospike_client_python.Exceptions.{ResultCode, ok, client_error}
use aerospike_client_python.Exceptions.Convert.{Detail, fields, result_code_to_exception}
use aerospike_client_python.Results.{
  Core, Error, RecordResult, Outcome, returned, raised, value_error, type_error, handler_error,
  code_exception,
}
use aerospike_client_python.Results.Filter.{Handler, Call, Result}
use aerospike_client_python.Results.Rows.{BatchRecord, or_code}

module _ (C : Core) where
  abbrev pub code_of : Error C → ResultCode
  code_of e = or_code C client_error (fields C.native e).result_code

  -- What a row or a call of the handler says, the object of its exception aside.
  pub record Shape : Type 0 where
    pub key : C.Key
    pub index : ℤ
    pub code : ResultCode
    pub in_doubt : Bool

  abbrev pub row_shape : RecordResult C → Shape
  row_shape r = record { key = r.key; index = r.index; code = r.result_code; in_doubt = r.in_doubt }

  abbrev pub call_shape : Call C → Shape
  call_shape c = record {
    key = c.key;
    index = c.index;
    code = elim c.error [ none ↦ ok | some e ↦ code_of e ];
    in_doubt = elim c.error [ none ↦ false | some e ↦ (fields C.native e).in_doubt ];
  }

  -- How a call ends, the object of an exception that it raises aside.
  pub data Answer : Type 0 where
    rows : List Shape → Answer
    raises : ResultCode → Bool → Answer
    refused handler_raises : Answer

  abbrev pub answer_of : Outcome C (List (RecordResult C)) → Answer
  answer_of (returned rs) = rows (map row_shape rs)
  answer_of (raised e) = raises (code_of e) (fields C.native e).in_doubt
  answer_of value_error = refused
  answer_of type_error = refused
  answer_of handler_error = handler_raises

  abbrev pub shape_of : Result C → Answer × List Shape
  shape_of (outcome, calls) = (answer_of outcome, map call_shape calls)

  -- A handler that goes by what a call says.
  abbrev pub by_shape : Option (List Shape → Shape → Bool) → Option (Handler C)
  by_shape none = none
  by_shape (some decide) = some (λ calls c. decide (map call_shape calls) (call_shape c))

  -- The record of the native client for a key that failed with the error's code and doubt.
  abbrev pub failed_record : C.Key → Error C → Detail C.native → BatchRecord C
  failed_record key e detail = record {
    key = key;
    payload = none;
    result_code = some (code_of e);
    in_doubt = (fields C.native e).in_doubt;
    detail = detail;
  }

  pub code_exception-code :
      (rc : ResultCode) (doubt : Bool) (d : Detail C.native)
      → code_of (code_exception C rc doubt d) ≡ rc
  unfolding result_code_to_exception
  code_exception-code rc doubt d = refl

  pub code_exception-in_doubt :
      (rc : ResultCode) (doubt : Bool) (d : Detail C.native)
      → (fields C.native (code_exception C rc doubt d)).in_doubt ≡ doubt
  unfolding result_code_to_exception
  code_exception-in_doubt rc doubt d = refl
