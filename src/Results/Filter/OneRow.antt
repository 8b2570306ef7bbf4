-- ===== src/Results/Filter/OneRow.antt =====
-- `_handle_error` of aerospike_sdk/query_shared.py, against the loop that filters the rows of a batch
-- with one record.
use aerospike_client_python.Base.{
  pos, Bool, true, false, String, is_some, Option, none, some, List, [], ◌∷◌, map, ◌≡◌, refl, sym,
  ap, ◌∙◌, if◌then◌else◌, arith, Bool-cases, inl, inr,
}
use aerospike_client_python.Exceptions.Convert.{Detail, fields, result_code_to_exception}
use aerospike_client_python.Results.{
  Core, Error, RecordResult, returned, is_ok, is_ok_code, to_exception, code_exception,
}
use aerospike_client_python.Results.Filter.{
  ErrorDisposition, throw, in_stream, handler, Flags, Handler, Result, verdict, filter_rows,
  handle_error, error_row, is_actionable, should_include_result, include, with_udf_result, failed,
  is_udf, call_of, filtered_batch_list,
}
use aerospike_client_python.Results.Filter.Laws.{
  verdict-ok, verdict-in_stream, verdict-throw, verdict-unhandled, verdict-handler,
}
use aerospike_client_python.Results.Rows.{row_of, detail_of, batch_records_to_results}
use aerospike_client_python.Results.Filter.Shapes.{
  code_of, Shape, row_shape, call_shape, Answer, rows, raises, handler_raises, shape_of, by_shape,
  failed_record, code_exception-code, code_exception-in_doubt,
}

module _ (C : Core) where
  module _ (f : Flags) (key : C.Key) (e : Error C) (detail : Detail C.native) (op : Option String)
      (not_ok : is_ok_code (code_of C e) ≡ false) where
    abbrev batch_row : RecordResult C
    batch_row = row_of C 0 key (failed_record C key e detail)

    exception_of_row : Error C
    exception_of_row =
        code_exception C (code_of C e) (fields C.native e).in_doubt (detail_of C detail)

    to_exception-batch_row : to_exception C batch_row ≡ some exception_of_row
    unfolding to_exception is_ok exception_of_row
    to_exception-batch_row = rw not_ok refl

    call_shape-batch_row : call_shape C (call_of C batch_row) ≡ row_shape C (error_row C key e)
    unfolding exception_of_row
    call_shape-batch_row = rw to_exception-batch_row (λ i. record {
      key = key;
      index = pos 0;
      code =
          code_exception-code C (code_of C e) (fields C.native e).in_doubt (detail_of C detail) i;
      in_doubt =
          code_exception-in_doubt C (code_of C e) (fields C.native e).in_doubt (detail_of C detail)
            i;
    })

    failed-batch_row : failed C f (batch_row, op) ≡ is_actionable f (code_of C e) op
    unfolding is_ok
    failed-batch_row = rw not_ok refl

    batch_row-udf : with_udf_result C (batch_row, op) ≡ batch_row
    batch_row-udf = elim (Bool-cases (is_udf op)) [
      | inl p ↦ rw (p, with_udf_result) refl
      | inr p ↦ rw (p, with_udf_result) refl
    ]

    -- The row is included or not, and the handler is not asked.
    abbrev passed : Bool → Result C
    passed b = if b then (returned (batch_row ∷ []), []) else (returned [], [])

    included_alone :
        (d : ErrorDisposition) (h : Option (Handler C))
        → verdict C f d h (batch_row, op) ≡ include C f (batch_row, op)
        → filter_rows C f d h ((batch_row, op) ∷ []) [] []
          ≡ passed (should_include_result (code_of C e) f (is_some op))
    unfolding filter_rows
    included_alone d h v = elim (Bool-cases (should_include_result (code_of C e) f (is_some op))) [
      | inl p ↦ rw (v, p, batch_row-udf) refl
      | inr p ↦ rw (v, p) refl
    ]

    -- An error that is acted on is included wherever it is neither raised nor dispatched.
    actionable-included :
        is_actionable f (code_of C e) op ≡ true
        → should_include_result (code_of C e) f (is_some op) ≡ true
    unfolding is_actionable should_include_result
    actionable-included h = go op h
      where
        go :
            (op : Option String)
            → is_actionable f (code_of C e) op ≡ true
            → should_include_result (code_of C e) f (is_some op) ≡ true
        go none h = ground arith
        go (some o) h = ground arith

    -- What a call that is acted on comes to, from how the disposition takes it.
    abbrev acted :
        ErrorDisposition → Option (List (Shape C) → Shape C → Bool) → Answer C × List (Shape C)
    acted throw h = (raises (code_of C e) (fields C.native e).in_doubt, [])
    acted in_stream h = (rows (row_shape C (error_row C key e) ∷ []), [])
    acted handler none = (rows (row_shape C (error_row C key e) ∷ []), [])
    acted handler (some decide) =
        if decide [] (row_shape C (error_row C key e))
        then (handler_raises, row_shape C (error_row C key e) ∷ [])
        else (rows [], row_shape C (error_row C key e) ∷ [])

    -- Where nothing is acted on, the row is in the stream or left out.
    abbrev left : Bool → Answer C × List (Shape C)
    left b = if b then (rows (row_shape C (error_row C key e) ∷ []), []) else (rows [], [])

    single-acted :
        (d : ErrorDisposition) (decide : Option (List (Shape C) → Shape C → Bool))
        → is_actionable f (code_of C e) op ≡ true
        → shape_of C (handle_error C f key e d (by_shape C decide) (pos 0) op) ≡ acted d decide
    unfolding handle_error
    single-acted throw decide p = rw p refl
    single-acted in_stream decide p = rw p refl
    single-acted handler none p = rw p refl
    single-acted handler (some decide) p =
        elim (Bool-cases (decide [] (row_shape C (error_row C key e)))) [
          | inl q ↦ rw (p, q) refl
          | inr q ↦ rw (p, q) refl
        ]

    single-left :
        (d : ErrorDisposition) (h : Option (Handler C))
        → is_actionable f (code_of C e) op ≡ false
        → shape_of C (handle_error C f key e d h (pos 0) op)
          ≡ left (should_include_result (code_of C e) f (is_some op))
    unfolding handle_error
    single-left d h p = elim (Bool-cases (should_include_result (code_of C e) f (is_some op))) [
      | inl q ↦ rw (p, q) refl
      | inr q ↦ rw (p, q) refl
    ]

    shape_of-passed : (b : Bool) → shape_of C (passed b) ≡ left b
    shape_of-passed true = refl
    shape_of-passed false = refl

    alone : ErrorDisposition → Option (Handler C) → Result C
    alone d h = filter_rows C f d h ((batch_row, op) ∷ []) [] []

    batch-acted :
        (d : ErrorDisposition) (decide : Option (List (Shape C) → Shape C → Bool))
        → is_actionable f (code_of C e) op ≡ true
        → shape_of C (alone d (by_shape C decide)) ≡ acted d decide
    unfolding alone filter_rows exception_of_row result_code_to_exception
    batch-acted throw decide p =
        rw
          (
            verdict-throw C f (by_shape C decide) (batch_row, op) (failed-batch_row ∙ p),
            to_exception-batch_row,
          )
          refl
    batch-acted in_stream decide p = ap (shape_of C) (
        included_alone in_stream (by_shape C decide)
          (verdict-in_stream C f (by_shape C decide) (batch_row, op))
        ∙ ap passed (actionable-included p))
    batch-acted handler none p = ap (shape_of C) (
        included_alone handler none (verdict-unhandled C f (batch_row, op))
        ∙ ap passed (actionable-included p))
    batch-acted handler (some decide) p =
        elim (Bool-cases (decide [] (row_shape C (error_row C key e)))) [
          | inl q ↦
              rw
                (
                  verdict-handler C f (λ cs c. decide (map (call_shape C) cs) (call_shape C c))
                      (batch_row, op) (failed-batch_row ∙ p),
                  call_shape-batch_row,
                  q,
                )
                (ap (λ x. (handler_raises, x ∷ [])) call_shape-batch_row)
          | inr q ↦
              rw
                (
                  verdict-handler C f (λ cs c. decide (map (call_shape C) cs) (call_shape C c))
                      (batch_row, op) (failed-batch_row ∙ p),
                  call_shape-batch_row,
                  q,
                )
                (ap (λ x. (rows [], x ∷ [])) call_shape-batch_row)
        ]

    batch-left :
        (d : ErrorDisposition) (h : Option (Handler C))
        → is_actionable f (code_of C e) op ≡ false
        → shape_of C (alone d h) ≡ left (should_include_result (code_of C e) f (is_some op))
    unfolding alone
    batch-left d h p =
        ap (shape_of C)
          (included_alone d h (verdict-ok C f d h (batch_row, op) (failed-batch_row ∙ p)))
        ∙ shape_of-passed (should_include_result (code_of C e) f (is_some op))

    filtered_batch_list-alone :
        (d : ErrorDisposition) (h : Option (Handler C))
        → filtered_batch_list C f (failed_record C key e detail ∷ []) (key ∷ []) d h op none
          ≡ alone d h
    unfolding filtered_batch_list batch_records_to_results alone
    filtered_batch_list-alone d h = refl

    -- A single call that fails, with another code than OK, ends as a batch of one key does whose
    -- record has that code and doubt and no record of its own: raised, dispatched at index 0, in the
    -- stream or left out, under every disposition and for a handler that goes by the key, the index,
    -- the code and the doubt that it is told; the objects of the exceptions may differ.
    pub handle_error-filtered_batch_list :
        (d : ErrorDisposition) (decide : Option (List (Shape C) → Shape C → Bool))
        → shape_of C (handle_error C f key e d (by_shape C decide) (pos 0) op)
          ≡ shape_of C (
              filtered_batch_list C f
                (failed_record C key e detail ∷ [])
                (key ∷ [])
                d
                (by_shape C decide)
                op
                none)
    handle_error-filtered_batch_list d decide =
        elim (Bool-cases (is_actionable f (code_of C e) op)) [
          | inl p ↦
              single-acted d decide p
              ∙ sym (
                  ap (shape_of C) (filtered_batch_list-alone d (by_shape C decide))
                  ∙ batch-acted d decide p)
          | inr p ↦
              single-left d (by_shape C decide) p
              ∙ sym (
                  ap (shape_of C) (filtered_batch_list-alone d (by_shape C decide))
                  ∙ batch-left d (by_shape C decide) p)
        ]
