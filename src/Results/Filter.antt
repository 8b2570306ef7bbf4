-- ===== src/Results/Filter.antt =====
-- The disposition of errors: aerospike_sdk/error_strategy.py, and the methods of
-- `_QueryBuilderBase` in aerospike_sdk/query_shared.py that keep, raise or dispatch a row.
pub mod Laws
pub mod Single
pub mod Shapes
pub mod OneRow
use aerospike_client_python.Base.{
  ℕ, suc, ℤ, pos, Bool, true, false, not, ◌&&◌, ◌||◌, ◌==◌, length, String, str_eq, is_some, Option,
  none, some, List, [], ◌∷◌, ◌++◌, if◌then◌else◌,
}
use aerospike_client_python.Exceptions.{ResultCode, client_error}
use aerospike_client_python.Exceptions.Convert.{fields, no_detail}
use aerospike_client_python.Results.{
  Core, Error, RecordResult, Outcome, returned, raised, value_error, handler_error, raise, is_ok,
  is_ok_code, is_key_not_found, is_filtered_out, to_exception,
}
use aerospike_client_python.Results.Rows.{
  BatchRecord, batch_records_to_results, batch_failure_records_to_results, or_code,
}

pub data ErrorDisposition : Type 0 where
  throw in_stream handler : ErrorDisposition

-- The argument `on_error`: absent, the strategy, or a handler.
pub data OnError : Type 0 where
  default strategy_in_stream callback : OnError

unfoldable pub resolve_disposition : OnError → Bool → ErrorDisposition
resolve_disposition default is_single_key = if is_single_key then throw else in_stream
resolve_disposition strategy_in_stream is_single_key = in_stream
resolve_disposition callback is_single_key = handler

-- The flags of the builder: `_respond_all_keys` and `_fail_on_filtered_out`.
pub record Flags : Type 0 where
  pub respond_all_keys : Bool
  pub fail_on_filtered_out : Bool

unfoldable pub should_include_result : ResultCode → Flags → Bool → Bool
should_include_result rc f has_write =
    if is_ok_code rc
    then true
    else if is_key_not_found rc
    then has_write || f.respond_all_keys
    else if is_filtered_out rc
    then has_write || f.fail_on_filtered_out
    else true

-- `op_type in _WRITES_REQUIRING_EXISTING_KEY`
abbrev pub requires_existing_key : Option String → Bool
requires_existing_key none = false
requires_existing_key (some op) = str_eq op "update" || str_eq op "replace_if_exists"

unfoldable pub is_actionable : Flags → ResultCode → Option String → Bool
is_actionable f rc op =
    if is_key_not_found rc
    then requires_existing_key op
    else if is_filtered_out rc
    then f.fail_on_filtered_out
    else true

abbrev pub is_udf : Option String → Bool
is_udf none = false
is_udf (some op) = str_eq op "udf"

module _ (C : Core) where
  -- A call of the handler.
  pub record Call : Type 0 where
    pub key : C.Key
    pub index : ℤ
    pub error : Option (Error C)

  -- Whether a handler raises, given the calls before and this one.
  abbrev pub Handler : Type 0
  Handler = List Call → Call → Bool

  -- A row with its verb.
  abbrev pub Row : Type 0
  Row = RecordResult C × Option String

  -- What the loop does with a row.
  pub data Verdict : Type 0 where
    keep_row : RecordResult C → Verdict
    skip_row raise_row : Verdict
    dispatch_row : Handler → Verdict

  -- An outcome with the calls that the handler has had.
  abbrev pub Result : Type 0
  Result = Outcome C (List (RecordResult C)) × List Call

  abbrev pub with_udf_result : Row → RecordResult C
  with_udf_result (r, op) = elim (is_udf op) [
    | false ↦ r
    | true ↦ elim r.payload [ none ↦ r | some p ↦ record r { udf_result = C.success_bin p } ]
  ]

  abbrev pub included : Flags → Row → Bool
  included f (r, op) = should_include_result r.result_code f (is_some op)

  abbrev pub failed : Flags → Row → Bool
  failed f (r, op) = not (is_ok C r) && is_actionable f r.result_code op

  abbrev pub include : Flags → Row → Verdict
  include f row = if included f row then keep_row (with_udf_result row) else skip_row

  abbrev pub verdict_of_failure : Flags → ErrorDisposition → Option Handler → Row → Verdict
  verdict_of_failure f throw h row = raise_row
  verdict_of_failure f in_stream h row = include f row
  verdict_of_failure f handler none row = include f row
  verdict_of_failure f handler (some h) row = dispatch_row h

  unfoldable pub verdict : Flags → ErrorDisposition → Option Handler → Row → Verdict
  verdict f d h row = if failed f row then verdict_of_failure f d h row else include f row

  abbrev pub call_of : RecordResult C → Call
  call_of r = record { key = r.key; index = r.index; error = to_exception C r }

  -- The rest of the loop after a call of the handler.
  abbrev pub after_call : (List Call → Result) → List Call → Bool → Result
  after_call again calls true = (handler_error, calls)
  after_call again calls false = again calls

  -- `again` is the rest of the loop, from the calls and the rows so far.
  abbrev pub on_verdict :
      (List Call → List (RecordResult C) → Result)
      → List Call
      → List (RecordResult C)
      → RecordResult C
      → Verdict
      → Result
  on_verdict again calls kept r (keep_row s) = again calls (kept ++ (s ∷ []))
  on_verdict again calls kept r skip_row = again calls kept
  on_verdict again calls kept r raise_row = (raise C (to_exception C r), calls)
  on_verdict again calls kept r (dispatch_row h) =
      after_call (λ calls. again calls kept) (calls ++ (call_of r ∷ [])) (h calls (call_of r))

  unfoldable pub filter_rows :
      Flags
      → ErrorDisposition
      → Option Handler
      → List Row
      → List Call
      → List (RecordResult C)
      → Result
  filter_rows f d h [] calls kept = (returned kept, calls)
  filter_rows f d h (row ∷ rows) calls kept =
      on_verdict (filter_rows f d h rows) calls kept row.0 (verdict f d h row)

  abbrev pub zip_verbs : List (RecordResult C) → List (Option String) → List Row
  zip_verbs [] ops = []
  zip_verbs (r ∷ rows) [] = []
  zip_verbs (r ∷ rows) (op ∷ ops) = (r, op) ∷ zip_verbs rows ops

  abbrev pub same_verb : Option String → List (RecordResult C) → List Row
  same_verb op [] = []
  same_verb op (r ∷ rows) = (r, op) ∷ same_verb op rows

  -- One verb for each row where there are as many, and else the shared one.
  abbrev pub with_verbs :
      Option String → Option (List (Option String)) → List (RecordResult C) → List Row
  with_verbs op none rows = same_verb op rows
  with_verbs op (some ops) rows =
      if length ops == length rows then zip_verbs rows ops else same_verb op rows

  unfoldable pub filtered_batch_list :
      Flags
      → List (BatchRecord C)
      → List C.Key
      → ErrorDisposition
      → Option Handler
      → Option String
      → Option (List (Option String))
      → Result
  filtered_batch_list f brs keys d h op ops = elim (batch_records_to_results C brs keys) [
    | none ↦ (value_error, [])
    | some rows ↦ filter_rows f d h (with_verbs op ops rows) [] []
  ]

  -- The row of a failed single call, which has index 0.
  abbrev pub error_row : C.Key → Error C → RecordResult C
  error_row key e = record {
    key = key;
    payload = none;
    result_code = or_code C client_error (fields C.native e).result_code;
    in_doubt = (fields C.native e).in_doubt;
    index = pos 0;
    exception = some e;
    udf_result = none;
    detail = no_detail C.native;
  }

  abbrev pub route : ErrorDisposition → Option Handler → Call → Error C → Result → Result
  route throw h c e embedded = (raised e, [])
  route in_stream h c e embedded = embedded
  route handler none c e embedded = embedded
  route handler (some h) c e embedded = after_call (λ calls. (returned [], calls)) (c ∷ []) (h [] c)

  -- The failure is given as it is converted.
  unfoldable pub handle_error :
      Flags → C.Key → Error C → ErrorDisposition → Option Handler → ℤ → Option String → Result
  handle_error f key e d h index op =
      let rc = or_code C client_error (fields C.native e).result_code in
      let embedded : Result = (returned (error_row key e ∷ []), []) in
      if is_actionable f rc op
      then route d h (record { key = key; index = index; error = some e }) e embedded
      else if should_include_result rc f (is_some op)
      then embedded
      else (returned [], [])

  -- The calls that hand an error to the handler for each key, from position `i`.
  abbrev pub fan_out : Handler → Error C → ℕ → List C.Key → List Call → Result
  fan_out h e i [] calls = (returned [], calls)
  fan_out h e i (key ∷ keys) calls =
      let c : Call = record { key = key; index = pos i; error = some e } in
      after_call (fan_out h e (suc i) keys) (calls ++ (c ∷ [])) (h calls c)

  abbrev pub error_rows : Error C → ℕ → List C.Key → List (RecordResult C)
  error_rows e i [] = []
  error_rows e i (key ∷ keys) =
      record (error_row key e) { index = pos i } ∷ error_rows e (suc i) keys

  abbrev pub is_empty : {A : Type 0} → List A → Bool
  is_empty [] = true
  is_empty (x ∷ xs) = false

  -- The rows of a failed batch; `records` is empty where the failure has none.
  abbrev pub batch_error_rows : Error C → List (BatchRecord C) → List C.Key → Result
  batch_error_rows e [] keys = (returned (error_rows e 0 keys), [])
  batch_error_rows e (br ∷ brs) keys =
      (returned (batch_failure_records_to_results C (br ∷ brs) e), [])

  -- `in_txn`: the builder runs in a transaction that the caller opened.
  unfoldable pub handle_batch_error_list :
      Bool
      → List C.Key
      → Error C
      → List (BatchRecord C)
      → ErrorDisposition
      → Option Handler
      → Result
  handle_batch_error_list in_txn keys e records throw h = (raised e, [])
  handle_batch_error_list in_txn keys e records in_stream h =
      if in_txn && is_empty records then (raised e, []) else batch_error_rows e records keys
  handle_batch_error_list in_txn keys e records handler none =
      if in_txn && is_empty records then (raised e, []) else batch_error_rows e records keys
  handle_batch_error_list in_txn keys e records handler (some h) =
      if in_txn && is_empty records then (raised e, []) else fan_out h e 0 keys []
