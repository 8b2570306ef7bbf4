-- ===== src/Dispatch/Execute/Laws.antt =====
-- The rows that aerospike_sdk/aio/operations/query.py gives for a chain of two segments or more.
use aerospike_client_python.Base.{length, Option, List, map, ◌≡◌, inl, inr}
use aerospike_client_python.Exceptions.Convert.{Native as Exceptions}
use aerospike_client_python.Results.{Core, RecordResult, returned}
use aerospike_client_python.Results.Filter.{in_stream, Call as HandlerCall, Handler}
use aerospike_client_python.Batch.Native.{Native}
use aerospike_client_python.Batch.Spec.{OperationSpec}
use aerospike_client_python.Policy.Settings.{Enums}
use aerospike_client_python.Dispatch.{Context}
use aerospike_client_python.Dispatch.Ops.{key_of}
use aerospike_client_python.Dispatch.Execute.{
  core, Setup, Sent, Answer, Progress, Executed, execute_specs_batch, execute_runs,
}
use aerospike_client_python.Dispatch.Execute.Keys.{Carries}

module _ (N : Native) (X : Exceptions) (Record : Type 0) (success_bin : Record → Option N.Value)
    (E : Enums) (touch : N.Operation) (c : Context N E) (BasePolicies : Type 0) where
  abbrev C : Core
  C = core N X Record success_bin

  abbrev Progressed : Type 0
  Progressed = Progress N X Record success_bin E touch c BasePolicies

  -- A batch is answered by a record for each operation, in order, or it fails with none, or with one
  -- for each.
  abbrev pub Fits :
      Sent N X Record success_bin E touch c BasePolicies
      → Answer N X Record success_bin E touch c BasePolicies
      → Type 0
  Fits sent (inl (e, records)) = Carries C (map (key_of N E) sent.call.all_ops) records
  Fits sent (inr batch_records) = length batch_records ≡ length sent.call.all_ops

  module _ (b : Setup N X Record success_bin E touch c BasePolicies)
      (client : List (Sent N X Record success_bin E touch c BasePolicies)
        → Sent N X Record success_bin E touch c BasePolicies
        → Answer N X Record success_bin E touch c BasePolicies)
      (h : Option (Handler C)) where
    abbrev pub IsFaithful : Type 0
    IsFaithful =
        (before : List (Sent N X Record success_bin E touch c BasePolicies))
        (sent : Sent N X Record success_bin E touch c BasePolicies)
        → Fits sent (client before sent)

    abbrev run_batch :
        List (OperationSpec N) → Progressed → Executed N X Record success_bin E touch c BasePolicies
    run_batch =
        execute_specs_batch N X Record success_bin E touch c BasePolicies b client in_stream h

    abbrev run_all :
        List (List (OperationSpec N))
        → List (RecordResult C)
        → Progressed
        → Executed N X Record success_bin E touch c BasePolicies
    run_all = execute_runs N X Record success_bin E touch c BasePolicies b client in_stream h

    -- The rows of these keys, in order.
    abbrev pub RowsOf : List N.Key → Executed N X Record success_bin E touch c BasePolicies → Type 0
    RowsOf keys r =
        (rows : List (RecordResult C)) × (r.0 ≡ returned rows) × (map (λ row. row.key) rows ≡ keys)
