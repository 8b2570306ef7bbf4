-- ===== src/Dispatch/Execute/Order.antt =====
-- The calls that aerospike_sdk/aio/operations/query.py sends for a chain, and where it stops.
use aerospike_client_python.Base.{
  false, flatten, Bool-cases, Option, List, [], ◌∷◌, ◌++◌, map, All, append_assoc, append-nil, ◌≡◌,
  refl, sym, ap, ap₂, ◌∙◌, ◌⊎◌, inl, inr,
}
use aerospike_client_python.Exceptions.Convert.{Native as Exceptions}
use aerospike_client_python.Results.{
  RecordResult, returned, raised, value_error, type_error, handler_error,
}
use aerospike_client_python.Results.Filter.{ErrorDisposition, Handler}
use aerospike_client_python.Batch.Native.{Native}
use aerospike_client_python.Batch.Spec.{OperationSpec}
use aerospike_client_python.Batch.Runs.{specs_require_sequential_run, spec_batch_runs}
use aerospike_client_python.Batch.Runs.Split.{
  KeysApart, flatten-spec_batch_runs, spec_batch_runs-KeysApart,
}
use aerospike_client_python.Policy.Settings.{Enums}
use aerospike_client_python.Dispatch.{Context}
use aerospike_client_python.Dispatch.Ops.{no_call, specs_call}
use aerospike_client_python.Dispatch.Ops.Laws.{specs_call-keys}
use aerospike_client_python.Dispatch.Execute.{
  core, Setup, Sent, Answer, Progress, Executed, is_wrapped, next_run, execute_specs_batch,
  execute_runs, execute_specs,
}
use aerospike_client_python.Dispatch.Execute.Keys.{keys_of_chain}

module _ (N : Native) (X : Exceptions) (Record : Type 0) (success_bin : Record → Option N.Value)
    (E : Enums) (touch : N.Operation) (c : Context N E) (BasePolicies : Type 0)
    (b : Setup N X Record success_bin E touch c BasePolicies)
    (client : List (Sent N X Record success_bin E touch c BasePolicies)
      → Sent N X Record success_bin E touch c BasePolicies
      → Answer N X Record success_bin E touch c BasePolicies)
    (d : ErrorDisposition) (h : Option (Handler (core N X Record success_bin))) where
  abbrev Rows : Type 0
  Rows = List (RecordResult (core N X Record success_bin))

  abbrev Progressed : Type 0
  Progressed = Progress N X Record success_bin E touch c BasePolicies

  abbrev Ended : Type 0
  Ended = Executed N X Record success_bin E touch c BasePolicies

  abbrev run_batch : List (OperationSpec N) → Progressed → Ended
  run_batch = execute_specs_batch N X Record success_bin E touch c BasePolicies b client d h

  abbrev run_all : List (List (OperationSpec N)) → Rows → Progressed → Ended
  run_all = execute_runs N X Record success_bin E touch c BasePolicies b client d h

  abbrev next : (Rows → Progressed → Ended) → Ended → Ended
  next = next_run N X Record success_bin E touch c BasePolicies b client d h

  -- Each of the batches but the last came back with rows before the next one was sent.
  abbrev pub Passes : List (List (OperationSpec N)) → Progressed → Type 0
  Passes [] p = Unit
  Passes (run ∷ []) p = Unit
  Passes (run ∷ run' ∷ runs) p =
      ((rows : Rows) × ((run_batch run p).0 ≡ returned rows))
      × Passes (run' ∷ runs) (run_batch run p).1

  Passes_cons :
      (run : List (OperationSpec N)) (runs : List (List (OperationSpec N))) (p : Progressed)
      (rows : Rows)
      → (run_batch run p).0 ≡ returned rows
      → Passes runs (run_batch run p).1
      → Passes (run ∷ runs) p
  Passes_cons run [] p rows h k = tt
  Passes_cons run (run' ∷ runs) p rows h k = ((rows, h), k)

  -- Calls for the batches `done` have been sent, in order and no other, each after the one before it
  -- came back with rows, and none for `rest`, which is nothing where rows are returned.
  pub record InOrder (batches : List (List (OperationSpec N))) (p : Progressed) (r : Ended)
      : Type 0 where
    pub done : List (List (OperationSpec N))
    pub rest : List (List (OperationSpec N))
    pub added : List (Sent N X Record success_bin E touch c BasePolicies)
    pub all_batches : done ++ rest ≡ batches
    pub sent_after : r.1.sent ≡ p.sent ++ added
    pub keys_sent : map (λ s. s.call.all_keys) added ≡ map (keys_of_chain N E touch c) done
    pub passed : Passes done p
    pub finished : (rest ≡ []) ⊎ ((rows : Rows) → ¬ (r.0 ≡ returned rows))

  next_cases :
      (again : Rows → Progressed → Ended) (r : Ended)
      → ((rows : Rows) × (r.0 ≡ returned rows) × (next again r ≡ again rows r.1))
        ⊎ ((next again r ≡ r) × ((rows : Rows) → ¬ (r.0 ≡ returned rows)))
  next_cases again (returned rows, p) = inl (rows, refl, refl)
  next_cases again (raised e, p) = inr (refl, λ rows k. cc k)
  next_cases again (value_error, p) = inr (refl, λ rows k. cc k)
  next_cases again (type_error, p) = inr (refl, λ rows k. cc k)
  next_cases again (handler_error, p) = inr (refl, λ rows k. cc k)

  sent_of : List (OperationSpec N) → Progressed → Sent N X Record success_bin E touch c BasePolicies
  sent_of specs p =
      let call = (specs_call N E touch c specs (no_call N E touch c) p.caches).0 in
      record {
        call = call;
        wrapped = is_wrapped N X Record success_bin E touch c BasePolicies b client d h call;
      }

  execute_specs_batch-sent :
      (specs : List (OperationSpec N)) (p : Progressed)
      → (run_batch specs p).1.sent ≡ p.sent ++ sent_of specs p ∷ []
  unfolding execute_specs_batch sent_of
  execute_specs_batch-sent specs p = refl

  sent_of-keys :
      (specs : List (OperationSpec N)) (p : Progressed)
      → (sent_of specs p).call.all_keys ≡ keys_of_chain N E touch c specs
  unfolding sent_of
  sent_of-keys specs p = (specs_call-keys N E touch c specs p.caches).1

  execute_runs-InOrder :
      (runs : List (List (OperationSpec N))) (rows : Rows) (p : Progressed)
      → InOrder runs p (run_all runs rows p)
  unfolding execute_runs
  execute_runs-InOrder [] rows p = record {
    done = [];
    rest = [];
    added = [];
    all_batches = refl;
    sent_after = sym (append-nil p.sent);
    keys_sent = refl;
    passed = tt;
    finished = inl refl;
  }
  execute_runs-InOrder (run ∷ runs) rows p =
      elim (next_cases (λ more. run_all runs (rows ++ more)) (run_batch run p)) [
        | inl (more, came_back, e) ↦
            let ih = execute_runs-InOrder runs (rows ++ more) (run_batch run p).1 in
            record {
              done = run ∷ ih.done;
              rest = ih.rest;
              added = sent_of run p ∷ ih.added;
              all_batches = ap (λ bs. run ∷ bs) ih.all_batches;
              sent_after =
                  ap (λ r. r.1.sent) e
                  ∙ ih.sent_after
                  ∙ ap (λ l. l ++ ih.added) (execute_specs_batch-sent run p)
                  ∙ append_assoc p.sent (sent_of run p ∷ []) ih.added;
              keys_sent = ap₂ (λ k ks. k ∷ ks) (sent_of-keys run p) ih.keys_sent;
              passed = Passes_cons run ih.done p more came_back ih.passed;
              finished = elim ih.finished [
                | inl all_sent ↦ inl all_sent
                | inr stops ↦ inr (λ rs k. stops rs (ap (λ r. r.0) (sym e) ∙ k))
              ];
            }
        | inr (e, no_rows) ↦ record {
          done = run ∷ [];
          rest = runs;
          added = sent_of run p ∷ [];
          all_batches = refl;
          sent_after = ap (λ r. r.1.sent) e ∙ execute_specs_batch-sent run p;
          keys_sent = ap (λ k. k ∷ []) (sent_of-keys run p);
          passed = tt;
          finished = inr (λ rs k. no_rows rs (ap (λ r. r.0) (sym e) ∙ k));
        }
      ]

  -- Whatever the client answers and the caller's handler does, and under every disposition: the
  -- batches of a chain of two segments or more, one after the other, are the chain; their calls go
  -- out in chain order, each after the one before it has come back with rows and not by raising, with
  -- exactly the keys of its segments; rows are returned only when all of them have gone out; and where the
  -- chain must run in sequence, no two segments of a batch share a key.
  pub execute_specs-InOrder :
      (specs : List (OperationSpec N)) (p : Progressed)
      → (batches : List (List (OperationSpec N))) × (flatten batches ≡ specs)
        × InOrder batches p
            (execute_specs N X Record success_bin E touch c BasePolicies b client d h specs p)
        × ((specs_require_sequential_run N specs ≡ false) ⊎ All (KeysApart N) batches)
  unfolding execute_specs
  execute_specs-InOrder specs p = elim (Bool-cases (specs_require_sequential_run N specs)) [
    | inl e ↦ rw e (
      spec_batch_runs N specs,
      flatten-spec_batch_runs N specs,
      execute_runs-InOrder (spec_batch_runs N specs) [] p,
      inr (spec_batch_runs-KeysApart N specs),
    )
    | inr e ↦ rw e (
      specs ∷ [],
      append-nil specs,
      record {
        done = specs ∷ [];
        rest = [];
        added = sent_of specs p ∷ [];
        all_batches = refl;
        sent_after = execute_specs_batch-sent specs p;
        keys_sent = ap (λ k. k ∷ []) (sent_of-keys specs p);
        passed = tt;
        finished = inl refl;
      },
      inl refl,
    )
  ]
