-- ===== src/Results/Writes.antt =====
-- What a batch of aerospike_sdk/query_shared.py whose rows all have a verb leaves in the stream.
use aerospike_client_python.Base.{
  ℕ, suc, true, ◌==◌, ==_iff, length, map, all, String, is_some, Option, none, some, List, [], ◌∷◌,
  ◌≡◌, refl, sym, ap, ap₂, ◌∙◌, Bool-cases, inl, inr, arith,
}
use aerospike_client_python.Exceptions.{ResultCode}
use aerospike_client_python.Results.{Core, RecordResult, returned, value_error}
use aerospike_client_python.Results.Filter.{
  in_stream, Flags, Handler, Row, with_udf_result, included, should_include_result, filter_rows,
  zip_verbs, with_verbs, Result, filtered_batch_list, is_udf,
}
use aerospike_client_python.Results.Filter.Laws.{stream_of, filter_rows-in_stream}
use aerospike_client_python.Results.Rows.{BatchRecord, rows_from, row_of, batch_records_to_results}

should_include_result-write : (rc : ResultCode) (f : Flags) → should_include_result rc f true ≡ true
unfolding should_include_result
should_include_result-write rc f = ground arith

module _ (C : Core) where
  key-udf : (row : Row C) → (with_udf_result C row).key ≡ row.0.key
  key-udf (r, op) = elim (Bool-cases (is_udf op)) [
    | inl p ↦ rw (p, with_udf_result) (go r.payload)
    | inr p ↦ rw (p, with_udf_result) refl
  ]
    where
      go :
          (p : Option C.Record)
          → (elim p as (λ _. RecordResult C) [
            | none ↦ r
            | some p ↦ record r { udf_result = C.success_bin p }
          ]).key
            ≡ r.key
      go none = refl
      go (some p) = refl

  keys-writes :
      (f : Flags) (rows : List (RecordResult C)) (ops : List (Option String))
      → all is_some ops ≡ true
      → length ops ≡ length rows
      → map (λ r. r.key) (stream_of C f (included C f) (zip_verbs C rows ops))
        ≡ map (λ r. r.key) rows
  keys-writes f [] ops h l = refl
  keys-writes f (r ∷ rows) [] h l = absurd (omega (arith, l))
  keys-writes f (r ∷ rows) (none ∷ ops) h l = absurd (cc h)
  keys-writes f (r ∷ rows) (some op ∷ ops) h l =
      rw (should_include_result-write r.result_code f)
        (ap₂ (λ k ks. k ∷ ks) (key-udf (r, some op)) (keys-writes f rows ops h (omega (arith, l))))

  -- Rows are made for as many records as keys.
  abbrev IsZip : ℕ → List (BatchRecord C) → List C.Key → Type 0
  IsZip i brs keys =
      (rows : List (RecordResult C)) × (rows_from C i brs keys ≡ some rows)
      × (map (λ r. r.key) rows ≡ keys)
      × (length rows ≡ length keys)

  rows_from-IsZip :
      (i : ℕ) (brs : List (BatchRecord C)) (keys : List C.Key)
      → length brs ≡ length keys
      → IsZip i brs keys
  rows_from-IsZip i [] [] h = ([], refl, refl, refl)
  rows_from-IsZip i [] (key ∷ keys) h = absurd (omega (arith, h))
  rows_from-IsZip i (br ∷ brs) [] h = absurd (omega (arith, h))
  rows_from-IsZip i (br ∷ brs) (key ∷ keys) h =
      let ih = rows_from-IsZip (suc i) brs keys (omega (arith, h)) in
      rw (ih.1) (row_of C i key br ∷ ih.0, refl, ap (λ ks. key ∷ ks) (ih.2), ap suc (ih.3))

  -- With a verb for each key, a batch whose errors go to the stream has one row for each key, in the
  -- order of the keys, whatever the records and the flags.
  pub filtered_batch_list-writes :
      (f : Flags) (brs : List (BatchRecord C)) (keys : List C.Key) (h : Option (Handler C))
      → (op : Option String) (ops : List (Option String)) → all is_some ops ≡ true
      → length ops ≡ length keys
      → length brs ≡ length keys
      → (rows : List (RecordResult C)) × (filtered_batch_list C f brs keys in_stream h op (some ops)
          ≡ (returned rows, []))
        × (map (λ r. r.key) rows ≡ keys)
  unfolding filtered_batch_list batch_records_to_results
  filtered_batch_list-writes f brs keys h op ops w l m =
      let z = rows_from-IsZip 0 brs keys m in
      let e : (length ops == length z.0) ≡ true =
        (==_iff (length ops) (length z.0)).1 (l ∙ sym (z.3)) in
      let rows = zip_verbs C z.0 ops in
      let same : elim (rows_from C 0 brs keys) as (λ _. Result C) [
        | none ↦ (value_error, [])
        | some rs ↦ filter_rows C f in_stream h (with_verbs C op (some ops) rs) [] []
      ]
          ≡ (returned (stream_of C f (included C f) rows), []) =
        rw (z.1, e) (filter_rows-in_stream C f h rows [] []) in
      (stream_of C f (included C f) rows, same, keys-writes f (z.0) ops w (l ∙ sym (z.3)) ∙ z.2)
