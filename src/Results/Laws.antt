-- ===== src/Results/Laws.antt =====
-- The rows of aerospike_sdk/record_result.py and the exceptions that they stand for.
use aerospike_client_python.Base.{
  ℕ, suc, Bool, true, false, is_some, Option, none, some, List, [], ◌∷◌, map, ◌≡◌, refl, ap₂,
  Bool-cases, Option-cases, inl, inr,
}
use aerospike_client_python.Exceptions.{ResultCode, ok, rc_to_type}
use aerospike_client_python.Exceptions.Convert.{fields, result_code_to_exception}
use aerospike_client_python.Results.{
  Core, Error, RecordResult, returned, raised, is_ok, is_ok_code, to_exception, or_raise,
  code_exception,
}
use aerospike_client_python.Results.Rows.{
  BatchRecord, batch_failure_records_to_results, failure_rows, failure_row, row_of, or_code,
  detail_of,
}

module _ (C : Core) where
  -- `or_raise` returns a row that is OK as it is, and raises exactly the exception that
  -- `to_exception` gives for any other; `to_exception` gives one exactly for the rows that are not
  -- OK.
  pub or_raise-to_exception :
      (r : RecordResult C)
      → (is_ok C r ≡ true → (or_raise C r ≡ returned r) × (to_exception C r ≡ none))
        × (is_ok C r ≡ false
            → (e : Error C) × (to_exception C r ≡ some e) × (or_raise C r ≡ raised e))
  unfolding or_raise to_exception
  or_raise-to_exception r = (
    λ p. rw p (refl, refl),
    λ p. elim (Option-cases r.exception) [
      | inl q ↦ rw (p, q) (code_exception C r.result_code r.in_doubt r.detail, refl, refl)
      | inr q ↦ rw (p, q.1) (q.0, refl, refl)
    ],
  )

  -- The exception of a row that fails in a batch has the class of the row's code, the code, the
  -- doubt, and the server's detail where the row has a subcode.
  pub to_exception-row_of :
      (i : ℕ) (key : C.Key) (br : BatchRecord C)
      → is_ok C (row_of C i key br) ≡ false
      → (e : Error C) × (to_exception C (row_of C i key br) ≡ some e)
        × ((fields C.native e).type ≡ rc_to_type (or_code C ok br.result_code))
        × ((fields C.native e).result_code ≡ some (or_code C ok br.result_code))
        × ((fields C.native e).in_doubt ≡ br.in_doubt)
        × ((fields C.native e).detail ≡ detail_of C br.detail)
  unfolding to_exception result_code_to_exception
  to_exception-row_of i key br p =
      let e = code_exception C (or_code C ok br.result_code) br.in_doubt (detail_of C br.detail) in
      rw p (e, refl, refl, refl, refl, refl)

  -- Whether the client has answered a row of a failed batch with success.
  abbrev pub answered_ok : BatchRecord C → Bool
  answered_ok br = elim br.result_code [ some rc ↦ is_ok_code rc | none ↦ is_some br.payload ]

  is_ok-failure_row :
      (e : Error C) (i : ℕ) (br : BatchRecord C) → is_ok C (failure_row C e i br) ≡ answered_ok br
  unfolding is_ok
  is_ok-failure_row e i br = go br.result_code br.payload
    where
      go :
          (rc : Option ResultCode) (p : Option C.Record)
          → is_ok C (failure_row C e i (record br { result_code = rc; payload = p }))
            ≡ answered_ok (record br { result_code = rc; payload = p })
      go none none = refl
      go none (some p) = refl
      go (some rc) p = elim (Bool-cases (is_ok_code rc)) [ inl q ↦ rw q refl | inr q ↦ rw q refl ]

  failure_rows_lem :
      (e : Error C) (i : ℕ) (brs : List (BatchRecord C))
      → map (is_ok C) (failure_rows C e i brs) ≡ map answered_ok brs
  failure_rows_lem e i [] = refl
  failure_rows_lem e i (br ∷ brs) =
      ap₂ (λ b bs. b ∷ bs) (is_ok-failure_row e i br) (failure_rows_lem e (suc i) brs)

  keys-failure_rows :
      (e : Error C) (i : ℕ) (brs : List (BatchRecord C))
      → map (λ r. r.key) (failure_rows C e i brs) ≡ map (λ br. br.key) brs
  keys-failure_rows e i [] = refl
  keys-failure_rows e i (br ∷ brs) =
      ap₂ (λ k ks. k ∷ ks) (go br.result_code br.payload) (keys-failure_rows e (suc i) brs)
    where
      go :
          (rc : Option ResultCode) (p : Option C.Record)
          → (failure_row C e i (record br { result_code = rc; payload = p })).key ≡ br.key
      go none none = refl
      go none (some p) = refl
      go (some rc) p = refl

  -- A batch that fails as a whole has one row for each record, with its key and in order, and a row
  -- is OK exactly when the client had answered it so: with the code OK, or with a record and no
  -- code.
  pub batch_failure_records_to_results_lem :
      (brs : List (BatchRecord C)) (e : Error C)
      → let rows = batch_failure_records_to_results C brs e in
        (map (λ r. r.key) rows ≡ map (λ br. br.key) brs)
        × (map (is_ok C) rows ≡ map answered_ok brs)
  unfolding batch_failure_records_to_results
  batch_failure_records_to_results_lem brs e = (keys-failure_rows e 0 brs, failure_rows_lem e 0 brs)
