-- ===== src/Results/Rows.antt =====
-- The rows of a batch, from the records of the native client: the last two functions of
-- aerospike_sdk/record_result.py.
use aerospike_client_python.Base.{
  ℕ, suc, pos, Bool, ◌||◌, Option, none, some, List, [], ◌∷◌, if◌then◌else◌,
}
use aerospike_client_python.Exceptions.{ResultCode, ok, client_error}
use aerospike_client_python.Exceptions.Convert.{Detail, fields, no_detail}
use aerospike_client_python.Results.{Core, Error, RecordResult, is_ok_code, code_exception}

module _ (C : Core) where
  -- A native `BatchRecord`; `payload` is its `record`.
  pub record BatchRecord : Type 0 where
    pub key : C.Key
    pub payload : Option C.Record
    pub result_code : Option ResultCode
    pub in_doubt : Bool
    pub detail : Detail C.native

  abbrev pub or_code : ResultCode → Option ResultCode → ResultCode
  or_code d none = d
  or_code d (some rc) = rc

  -- A row without a subcode has no message and no trace.
  abbrev pub detail_of : Detail C.native → Detail C.native
  detail_of d = elim d.sub_code [ none ↦ no_detail C.native | some s ↦ d ]

  abbrev pub row_of : ℕ → C.Key → BatchRecord → RecordResult C
  row_of i key br = record {
    key = key;
    payload = br.payload;
    result_code = or_code ok br.result_code;
    in_doubt = br.in_doubt;
    index = pos i;
    exception = none;
    udf_result = none;
    detail = detail_of br.detail;
  }

  -- `none` is the `ValueError` of keys and records that differ in number.
  abbrev pub rows_from : ℕ → List BatchRecord → List C.Key → Option (List (RecordResult C))
  rows_from i [] [] = some []
  rows_from i [] (key ∷ keys) = none
  rows_from i (br ∷ brs) [] = none
  rows_from i (br ∷ brs) (key ∷ keys) = elim (rows_from (suc i) brs keys) [
    | none ↦ none
    | some rows ↦ some (row_of i key br ∷ rows)
  ]

  unfoldable pub batch_records_to_results :
      List BatchRecord → List C.Key → Option (List (RecordResult C))
  batch_records_to_results brs keys = rows_from 0 brs keys

  -- A row that was never answered.
  abbrev pub unanswered_row : Error C → ℕ → BatchRecord → RecordResult C
  unanswered_row e i br = record {
    key = br.key;
    payload = none;
    result_code = or_code client_error (fields C.native e).result_code;
    in_doubt = br.in_doubt || (fields C.native e).in_doubt;
    index = pos i;
    exception = some e;
    udf_result = none;
    detail = no_detail C.native;
  }

  abbrev pub answered_row : ResultCode → ℕ → BatchRecord → RecordResult C
  answered_row rc i br = record {
    key = br.key;
    payload = br.payload;
    result_code = rc;
    in_doubt = br.in_doubt;
    index = pos i;
    exception = if is_ok_code rc then none else some (code_exception C rc br.in_doubt br.detail);
    udf_result = none;
    detail = br.detail;
  }

  abbrev pub failure_row : Error C → ℕ → BatchRecord → RecordResult C
  failure_row e i br = elim br.result_code [
    | some rc ↦ answered_row rc i br
    | none ↦ elim br.payload [ none ↦ unanswered_row e i br | some p ↦ answered_row ok i br ]
  ]

  abbrev pub failure_rows : Error C → ℕ → List BatchRecord → List (RecordResult C)
  failure_rows e i [] = []
  failure_rows e i (br ∷ brs) = failure_row e i br ∷ failure_rows e (suc i) brs

  unfoldable pub batch_failure_records_to_results :
      List BatchRecord → Error C → List (RecordResult C)
  batch_failure_records_to_results brs e = failure_rows e 0 brs
