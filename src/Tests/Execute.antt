-- ===== src/Tests/Execute.antt =====
-- A chain that goes out in two batches, of which the second fails as a whole.
use aerospike_client_python.Base.{
  ℕ, String, true, false, flatten, none, some, List, [], ◌∷◌, map, All, ◌≡◌, refl, ◌⊎◌, inl, inr,
}
use aerospike_client_python.Exceptions.Convert.{
  pnc, connection, no_exceptions, convert_pnc_exception,
}
use aerospike_client_python.Results.{Core, Error, raised, is_ok}
use aerospike_client_python.Results.Rows.{BatchRecord, batch_records_to_results}
use aerospike_client_python.Results.Filter.{filter_rows, verdict, should_include_result, throw}
use aerospike_client_python.Batch.Spec.{OperationSpec}
use aerospike_client_python.Batch.Runs.{specs_require_sequential_run}
use aerospike_client_python.Batch.Runs.Split.{KeysApart}
use aerospike_client_python.Policy.Settings.{ap}
use aerospike_client_python.Dispatch.Policies.{no_caches}
use aerospike_client_python.Dispatch.Ops.{key_of}
use aerospike_client_python.Dispatch.Execute as Execute
use aerospike_client_python.Dispatch.Execute.{
  Setup, Sent, Answer, Progress, execute_specs, execute_specs_batch, execute_runs,
}
use aerospike_client_python.Dispatch.Execute.Order.{InOrder, execute_specs-InOrder}
use aerospike_client_python.Tests.Batch.{core, chain}
use aerospike_client_python.Tests.Dispatch.{enums, context}
use aerospike_client_python.Tests.Exceptions.{native, failure}

abbrev results : Core
results = Execute.core core native ℕ some

abbrev error : Error results
error = convert_pnc_exception native (pnc connection (failure none) no_exceptions) none

abbrev Call : Type 0
Call = Sent core native ℕ some enums "touch" context ℕ

abbrev record_for : String → BatchRecord results
record_for key = record {
  key = key;
  payload = some 1;
  result_code = none;
  in_doubt = false;
  detail = record { sub_code = none; server_message = none; exp_trace = none };
}

abbrev client : List Call → Call → Answer core native ℕ some enums "touch" context ℕ
client [] sent = inr (map (λ op. record_for (key_of core enums op)) sent.call.all_ops)
client (call ∷ before) sent = inl (error, [])

abbrev builder : Setup core native ℕ some enums "touch" context ℕ
builder = record {
  flags = record { respond_all_keys = false; fail_on_filtered_out = false };
  modes = record {
    namespace = "test";
    resolver = none;
    namespace_mode = some ap;
    base = 0;
    base_sc = 0;
    batch_namespace_modes = none;
    batch_any_sc = false;
  };
  in_txn = false;
  opted_out = false;
  wraps = some true;
  supports_mrt = true;
}

abbrev start : Progress core native ℕ some enums "touch" context ℕ
start = record { sent = []; caches = no_caches core enums; handled = [] }

execute_specs-InOrder_example :
    (batches : List (List (OperationSpec core))) × (flatten batches ≡ chain)
    × InOrder core native ℕ some enums "touch" context ℕ builder client throw none batches start (
        execute_specs core native ℕ some enums "touch" context ℕ builder client throw none chain
          start)
    × ((specs_require_sequential_run core chain ≡ false) ⊎ All (KeysApart core) batches)
execute_specs-InOrder_example =
    execute_specs-InOrder core native ℕ some enums "touch" context ℕ builder client throw none chain
      start

stops :
    (execute_specs core native ℕ some enums "touch" context ℕ builder client throw none chain
      start).0
    ≡ raised error
unfolding execute_specs batch_records_to_results filter_rows verdict is_ok should_include_result
stops = refl
