-- ===== src/Tests/Results.antt =====
-- A batch of three rows, of which one is missing and one fails, under each disposition.
use aerospike_client_python.Base.{
  ℕ, Bool, pos, String, true, false, Option, none, some, List, [], ◌∷◌, ◌≡◌, refl,
}
use aerospike_client_python.Exceptions.{ResultCode, ok, key_not_found_error, key_busy}
use aerospike_client_python.Results.{Core, Error, returned}
use aerospike_client_python.Results.Filter.{
  handler, Flags, Handler, Row, filtered_batch_list, handle_error, handle_batch_error_list,
}
use aerospike_client_python.Results.Filter.Single.{calls_for, handle_batch_error_list-handler}
use aerospike_client_python.Results.Filter.Shapes.{Shape, shape_of, by_shape, failed_record}
use aerospike_client_python.Results.Filter.OneRow.{handle_error-filtered_batch_list}
use aerospike_client_python.Results.Rows.{BatchRecord, row_of}
use aerospike_client_python.Exceptions.Convert.{
  Detail, pnc, connection, no_exceptions, convert_pnc_exception,
}
use aerospike_client_python.Tests.Exceptions.{native, failure}

abbrev core : Core
core = record { native = native; Key = ℕ; Record = ℕ; Value = ℕ; success_bin = λ r. some r }

abbrev answer : ℕ → Option ℕ → Option ResultCode → BatchRecord core
answer key payload rc = record {
  key = key;
  payload = payload;
  result_code = rc;
  in_doubt = false;
  detail = record { sub_code = none; server_message = none; exp_trace = none };
}

abbrev answers : List (BatchRecord core)
answers =
    answer 7 (some 70) none
    ∷ answer 8 none (some key_not_found_error)
    ∷ answer 9 none (some key_busy)
    ∷ []

abbrev row : ℕ → ℕ → Option ℕ → Option ResultCode → Option String → Row core
row i key payload rc op = (row_of core i key (answer key payload rc), op)

abbrev rows : List (Row core)
rows =
    row 0 7 (some 70) none none
    ∷ row 1 8 none (some key_not_found_error) none
    ∷ row 2 9 none (some key_busy) (some "upsert")
    ∷ []

abbrev flags : Flags
flags = record { respond_all_keys = false; fail_on_filtered_out = false }

abbrev quiet : Handler core
quiet before c = false

abbrev error : Error core
error = convert_pnc_exception native (pnc connection (failure none) no_exceptions) none

abbrev nothing_more : Detail native
nothing_more = record { sub_code = none; server_message = none; exp_trace = none }

-- A handler that raises where the outcome is open.
abbrev decide : List (Shape core) → Shape core → Bool
decide before told = told.in_doubt

handle_error-filtered_batch_list_example :
    shape_of core (
      handle_error core flags 7 error handler (by_shape core (some decide)) (pos 0) (some "update"))
    ≡ shape_of core (
        filtered_batch_list core flags
          (failed_record core 7 error nothing_more ∷ [])
          (7 ∷ [])
          handler
          (by_shape core (some decide))
          (some "update")
          none)
unfolding convert_pnc_exception
handle_error-filtered_batch_list_example =
    handle_error-filtered_batch_list core flags 7 error nothing_more (some "update") refl handler
      (some decide)

-- The first row was answered.
handle_batch_error_list-handler_example :
    handle_batch_error_list core true
      (7 ∷ 8 ∷ [])
      error
      (answer 7 (some 70) (some ok) ∷ [])
      handler
      (some quiet)
    ≡ (returned [], calls_for core error 0 (7 ∷ 8 ∷ []))
handle_batch_error_list-handler_example =
    handle_batch_error_list-handler core true (7 ∷ 8 ∷ []) error (answer 7 (some 70) (some ok) ∷ [])
      quiet (λ before c. refl) refl
