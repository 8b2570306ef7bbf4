-- ===== src/Results/Filter/Single.antt =====
-- `_handle_batch_error_list` of aerospike_sdk/query_shared.py: what a handler is told of a batch that
-- fails as a whole.
use aerospike_client_python.Base.{
  ℕ, suc, pos, Bool, false, ◌&&◌, some, List, [], ◌∷◌, ◌++◌, append-nil, append_assoc, ◌≡◌, refl,
  ap, ◌∙◌,
}
use aerospike_client_python.Results.{Core, Error, returned}
use aerospike_client_python.Results.Filter.{
  handler, Handler, Call, fan_out, handle_batch_error_list, is_empty,
}
use aerospike_client_python.Results.Rows.{BatchRecord}

module _ (C : Core) where
  -- The calls that tell a handler of an error for each key, from position `i`.
  abbrev pub calls_for : Error C → ℕ → List C.Key → List (Call C)
  calls_for e i [] = []
  calls_for e i (key ∷ keys) =
      record { key = key; index = pos i; error = some e } ∷ calls_for e (suc i) keys

  fan_out_lem :
      (h : Handler C) (e : Error C) (i : ℕ) (keys : List C.Key) (calls : List (Call C))
      → ((before : List (Call C)) (c : Call C) → h before c ≡ false)
      → fan_out C h e i keys calls ≡ (returned [], calls ++ calls_for e i keys)
  fan_out_lem h e i [] calls quiet = rw (append-nil calls) refl
  fan_out_lem h e i (key ∷ keys) calls quiet =
      let c : Call C = record { key = key; index = pos i; error = some e } in
      rw (quiet calls c) (
        fan_out_lem h e (suc i) keys (calls ++ (c ∷ [])) quiet
        ∙ ap (λ cs. (returned [], cs)) (append_assoc calls (c ∷ []) (calls_for e (suc i) keys)))

  -- A batch that fails as a whole, outside a transaction or with rows that were answered, hands its
  -- one error to a handler that never raises for every key, those of answered rows too, and returns
  -- no row.
  pub handle_batch_error_list-handler :
      (in_txn : Bool) (keys : List C.Key) (e : Error C) (records : List (BatchRecord C))
      → (h : Handler C) → ((before : List (Call C)) (c : Call C) → h before c ≡ false)
      → (in_txn && is_empty C records) ≡ false
      → handle_batch_error_list C in_txn keys e records handler (some h)
        ≡ (returned [], calls_for e 0 keys)
  unfolding handle_batch_error_list
  handle_batch_error_list-handler in_txn keys e records h quiet p =
      rw p (fan_out_lem h e 0 keys [] quiet)
