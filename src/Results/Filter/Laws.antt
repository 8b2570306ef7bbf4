-- ===== src/Results/Filter/Laws.antt =====
-- What becomes of each row under each disposition in aerospike_sdk/query_shared.py.
use aerospike_client_python.Base.{
  Bool, true, false, not, ◌&&◌, map, keep, Option, none, some, List, [], ◌∷◌, ◌++◌, append-nil,
  append_assoc, if◌then◌else◌, ◌≡◌, refl, ap, ◌∙◌, Bool-cases, inl, inr,
}
use aerospike_client_python.Results.{Core, RecordResult, returned, raise, to_exception}
use aerospike_client_python.Results.Filter.{
  ErrorDisposition, throw, in_stream, handler, Flags, Handler, Call, Row, Result, with_udf_result,
  included, failed, include, verdict, call_of, filter_rows, raise_row, dispatch_row,
}

module _ (C : Core) (f : Flags) where
  -- The rows that pass a test, as the stream shows them.
  abbrev pub stream_of : (Row C → Bool) → List (Row C) → List (RecordResult C)
  stream_of select rows = map (with_udf_result C) (keep select rows)

  -- A row that does not fail is kept or left out, whatever the disposition.
  filter_rows-include :
      (d : ErrorDisposition) (h : Option (Handler C)) (row : Row C) (rows : List (Row C))
      → (calls : List (Call C)) (kept : List (RecordResult C))
      → (select : Row C → Bool) (result : List (RecordResult C) → Result C)
      → verdict C f d h row ≡ include C f row
      → select row ≡ included C f row
      → ((kept : List (RecordResult C))
          → filter_rows C f d h rows calls kept ≡ result (kept ++ stream_of select rows))
      → filter_rows C f d h (row ∷ rows) calls kept ≡ result (kept ++ stream_of select (row ∷ rows))
  unfolding filter_rows
  filter_rows-include d h row rows calls kept select result v e ih =
      elim (Bool-cases (included C f row)) [
        | inl p ↦
            rw (v, e, p)
              (ih (kept ++ (with_udf_result C row ∷ []))
                ∙ ap result
                    (append_assoc kept (with_udf_result C row ∷ []) (stream_of select rows)))
        | inr p ↦ rw (v, e, p) (ih kept)
      ]

  pub verdict-ok :
      (d : ErrorDisposition) (h : Option (Handler C)) (row : Row C)
      → failed C f row ≡ false
      → verdict C f d h row ≡ include C f row
  unfolding verdict
  verdict-ok d h row p = rw p refl

  pub verdict-in_stream :
      (h : Option (Handler C)) (row : Row C) → verdict C f in_stream h row ≡ include C f row
  unfolding verdict
  verdict-in_stream h row = elim (Bool-cases (failed C f row)) [
    | inl p ↦ rw p refl
    | inr p ↦ rw p refl
  ]

  pub verdict-unhandled : (row : Row C) → verdict C f handler none row ≡ include C f row
  unfolding verdict
  verdict-unhandled row = elim (Bool-cases (failed C f row)) [
    | inl p ↦ rw p refl
    | inr p ↦ rw p refl
  ]

  pub verdict-throw :
      (h : Option (Handler C)) (row : Row C)
      → failed C f row ≡ true
      → verdict C f throw h row ≡ raise_row
  unfolding verdict
  verdict-throw h row p = rw p refl

  pub verdict-handler :
      (h : Handler C) (row : Row C)
      → failed C f row ≡ true
      → verdict C f handler (some h) row ≡ dispatch_row h
  unfolding verdict
  verdict-handler h row p = rw p refl

  -- In the stream, nothing is raised and nothing is dispatched: the rows that are included stay, in
  -- order.
  pub filter_rows-in_stream :
      (h : Option (Handler C)) (rows : List (Row C)) (calls : List (Call C))
      → (kept : List (RecordResult C))
      → filter_rows C f in_stream h rows calls kept
        ≡ (returned (kept ++ stream_of (included C f) rows), calls)
  unfolding filter_rows
  filter_rows-in_stream h [] calls kept = rw (append-nil kept) refl
  filter_rows-in_stream h (row ∷ rows) calls kept =
      filter_rows-include in_stream h row rows calls kept (included C f)
        (λ rs. (returned rs, calls)) (verdict-in_stream h row) refl
        (filter_rows-in_stream h rows calls)

  -- What throwing comes to: the first failure is raised, or the included rows are returned.
  abbrev pub thrown :
      List (Row C) → List (RecordResult C) → List (Call C) → List (RecordResult C) → Result C
  thrown [] all_rows calls kept = (returned (kept ++ all_rows), calls)
  thrown (row ∷ _) all_rows calls kept = (raise C (to_exception C row.0), calls)

  -- Throwing raises the exception of the first row that fails, with no call of a handler, and where
  -- no row fails returns the rows that are included, in order.
  pub filter_rows-throw :
      (h : Option (Handler C)) (rows : List (Row C)) (calls : List (Call C))
      → (kept : List (RecordResult C))
      → filter_rows C f throw h rows calls kept
        ≡ thrown (keep (failed C f) rows) (stream_of (included C f) rows) calls kept
  unfolding filter_rows
  filter_rows-throw h [] calls kept = rw (append-nil kept) refl
  filter_rows-throw h (row ∷ rows) calls kept = elim (Bool-cases (failed C f row)) [
    | inl p ↦ raises (keep (failed C f) rows) p
    | inr p ↦ goes_on p (keep (failed C f) rows) (filter_rows-throw h rows calls)
  ]
    where
      raises :
          (rest : List (Row C))
          → failed C f row ≡ true
          → filter_rows C f throw h (row ∷ rows) calls kept
            ≡ thrown
                (if failed C f row then row ∷ rest else rest)
                (stream_of (included C f) (row ∷ rows))
                calls
                kept
      raises rest p = rw (verdict-throw h row p, p) refl

      goes_on :
          failed C f row ≡ false
          → (rest : List (Row C))
          → ((kept : List (RecordResult C))
              → filter_rows C f throw h rows calls kept
                ≡ thrown rest (stream_of (included C f) rows) calls kept)
          → filter_rows C f throw h (row ∷ rows) calls kept
            ≡ thrown
                (if failed C f row then row ∷ rest else rest)
                (stream_of (included C f) (row ∷ rows))
                calls
                kept
      goes_on p [] ih = rw p (
          filter_rows-include throw h row rows calls kept (included C f)
            (λ rs. (returned rs, calls)) (verdict-ok throw h row p) refl ih)
      goes_on p (r ∷ rest) ih = rw p (
          filter_rows-include throw h row rows calls kept (included C f)
            (λ rs. (raise C (to_exception C r.0), calls)) (verdict-ok throw h row p) refl ih)

  -- A handler that never raises is called once for each row that fails, in order, and the stream
  -- has the included rows among the others, in order.
  pub filter_rows-handler :
      (h : Handler C) (rows : List (Row C)) (calls : List (Call C)) (kept : List (RecordResult C))
      → ((before : List (Call C)) (c : Call C) → h before c ≡ false)
      → filter_rows C f handler (some h) rows calls kept ≡ (
        returned (kept ++ stream_of (λ row. not (failed C f row) && included C f row) rows),
        calls ++ map (λ row. call_of C row.0) (keep (failed C f) rows),
      )
  unfolding filter_rows
  filter_rows-handler h [] calls kept quiet = rw (append-nil kept, append-nil calls) refl
  filter_rows-handler h (row ∷ rows) calls kept quiet = elim (Bool-cases (failed C f row)) [
    | inl p ↦
        rw (verdict-handler h row p, p, quiet calls (call_of C row.0))
          (filter_rows-handler h rows (calls ++ (call_of C row.0 ∷ [])) kept quiet
            ∙ ap
                (λ cs. (
                  returned
                      (kept ++ stream_of (λ row. not (failed C f row) && included C f row) rows),
                  cs,
                ))
                (append_assoc calls (call_of C row.0 ∷ [])
                  (map (λ row. call_of C row.0) (keep (failed C f) rows))))
    | inr p ↦
        let e : (not (failed C f row) && included C f row) ≡ included C f row = rw p refl in
        rw (ap (λ b. if b then row ∷ keep (failed C f) rows else keep (failed C f) rows) p) (
          filter_rows-include handler (some h) row rows calls kept
            (λ row. not (failed C f row) && included C f row)
            (λ rs. (returned rs, calls ++ map (λ row. call_of C row.0) (keep (failed C f) rows)))
            (verdict-ok handler (some h) row p) e
            (λ kept. filter_rows-handler h rows calls kept quiet))
  ]
