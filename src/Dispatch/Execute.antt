-- ===== src/Dispatch/Execute.antt =====
-- `execute` and `_execute_specs_batch` of aerospike_sdk/aio/operations/query.py, for a chain of two
-- segments or more, from the segments to the rows of the stream.
pub mod Keys
pub mod Laws
pub mod Order
use aerospike_client_python.Base.{
  Bool, true, false, ◌&&◌, not, any, Option, none, some, List, [], ◌∷◌, ◌++◌, ◌⊎◌, inl, inr,
  if◌then◌else◌,
}
use aerospike_client_python.Exceptions.Convert.{Native as Exceptions}
use aerospike_client_python.Results.{
  Core, Error, RecordResult, Outcome, returned, raised, value_error, type_error, handler_error,
}
use aerospike_client_python.Results.Rows.{BatchRecord}
use aerospike_client_python.Results.Filter.{
  ErrorDisposition, Flags, Call as HandlerCall, Handler, Result, filtered_batch_list,
  handle_batch_error_list,
}
use aerospike_client_python.Batch.Native.{Native}
use aerospike_client_python.Batch.Spec.{OperationSpec}
use aerospike_client_python.Batch.Runs.{specs_require_sequential_run, spec_batch_runs}
use aerospike_client_python.Policy.Settings.{Enums}
use aerospike_client_python.Dispatch.{Context}
use aerospike_client_python.Dispatch.Policies.{Caches}
use aerospike_client_python.Dispatch.Ops.{
  BatchOp, read_operations, read_bins, write_op, delete_op, udf_op, Call, no_call, specs_call,
}
use aerospike_client_python.Dispatch.Modes.{Modes, implicit_txn_precheck}

-- The client's keys, its exceptions, and its records, of which `success_bin` reads a bin.
module _ (N : Native) (X : Exceptions) (Record : Type 0)
    (success_bin : Record → Option N.Value) where
  abbrev pub core : Core
  core = record {
    native = X;
    Key = N.Key;
    Record = Record;
    Value = N.Value;
    success_bin = success_bin;
  }

  module _ (E : Enums) (touch : N.Operation) (c : Context N E) (BasePolicies : Type 0) where
    -- What a builder holds while it executes: `in_txn` and `opted_out` are its transaction and the
    -- refusal of any, `wraps` and `supports_mrt` those of its client.
    pub record Setup : Type 0 where
      pub flags : Flags
      pub modes : Modes N (Error core) BasePolicies
      pub in_txn : Bool
      pub opted_out : Bool
      pub wraps : Option Bool
      pub supports_mrt : Bool

    -- A call, with the policy of the whole batch, which is the same for all, left out; a wrapped one
    -- runs in an implicit transaction.
    pub record Sent : Type 0 where
      pub call : Call N E touch c
      pub wrapped : Bool

    -- The records of a call, or the failure of all of it, as it is converted, with the records that
    -- it carries.
    abbrev pub Answer : Type 0
    Answer = (Error core × List (BatchRecord core)) ⊎ List (BatchRecord core)

    -- What has been sent, the builder's caches, and the handler's calls.
    pub record Progress : Type 0 where
      pub sent : List Sent
      pub caches : Caches N E
      pub handled : List (HandlerCall core)

    abbrev pub Executed : Type 0
    Executed = Outcome core (List (RecordResult core)) × Progress

    -- `not isinstance(op, BatchReadOp)`
    abbrev pub is_write : BatchOp N E → Bool
    is_write (read_operations key ops policy) = false
    is_write (read_bins key bins policy) = false
    is_write (write_op key ops policy puts) = true
    is_write (delete_op key policy) = true
    is_write (udf_op key module_name function args policy) = true

    -- A handler that has had calls before.
    abbrev pub resumed : List (HandlerCall core) → Option (Handler core) → Option (Handler core)
    resumed before none = none
    resumed before (some h) = some (λ calls call. h (before ++ calls) call)

    -- The client answers a call after those before it.
    module _ (b : Setup) (client : List Sent → Sent → Answer) (d : ErrorDisposition)
        (h : Option (Handler core)) where
      abbrev pub is_wrapped : Call N E touch c → Bool
      unfolding implicit_txn_precheck
      is_wrapped call =
          implicit_txn_precheck N (Error core) BasePolicies b.opted_out b.wraps b.in_txn b.modes
            call.all_keys
          && (any is_write call.all_ops && b.supports_mrt)

      abbrev pub rows_of_answer : Call N E touch c → List (HandlerCall core) → Answer → Result core
      unfolding handle_batch_error_list filtered_batch_list
      rows_of_answer call before (inl (e, records)) =
          handle_batch_error_list core b.in_txn call.all_keys e records d (resumed before h)
      rows_of_answer call before (inr batch_records) =
          filtered_batch_list core b.flags batch_records call.all_keys d (resumed before h) none
            (some call.row_op_types)

      unfoldable pub execute_specs_batch : List (OperationSpec N) → Progress → Executed
      unfolding is_wrapped rows_of_answer specs_call
      execute_specs_batch specs p =
          let built = specs_call N E touch c specs (no_call N E touch c) p.caches in
          let sent : Sent = record { call = built.0; wrapped = is_wrapped built.0 } in
          let rows = rows_of_answer built.0 p.handled (client p.sent sent) in
          (
            rows.0,
            record { sent = p.sent ++ sent ∷ []; caches = built.1; handled = p.handled ++ rows.1 },
          )

      -- The rest of the loop, where a call has not raised.
      abbrev pub next_run : (List (RecordResult core) → Progress → Executed) → Executed → Executed
      next_run rest (returned rows, p) = rest rows p
      next_run rest (raised e, p) = (raised e, p)
      next_run rest (value_error, p) = (value_error, p)
      next_run rest (type_error, p) = (type_error, p)
      next_run rest (handler_error, p) = (handler_error, p)

      -- The streams of the runs, chained.
      unfoldable pub execute_runs :
          List (List (OperationSpec N)) → List (RecordResult core) → Progress → Executed
      unfolding execute_specs_batch
      execute_runs [] rows p = (returned rows, p)
      execute_runs (run ∷ runs) rows p =
          next_run (λ more. execute_runs runs (rows ++ more)) (execute_specs_batch run p)

      unfoldable pub execute_specs : List (OperationSpec N) → Progress → Executed
      unfolding execute_runs specs_require_sequential_run spec_batch_runs
      execute_specs specs p =
          if specs_require_sequential_run N specs
          then execute_runs (spec_batch_runs N specs) [] p
          else execute_specs_batch specs p
