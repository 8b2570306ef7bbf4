-- ===== src/Stream/Limit.antt =====
-- The overall limit of a query in chunks, in aerospike_sdk/record_stream.py.
use aerospike_client_python.Base.{
  ℕ, zero, suc, ◌≤◌, ◌<◌, ◌≡◌, refl, ◌⊎◌, inl, inr, Bool, true, false, Option, none, some, List, [],
  ◌∷◌, length, arith, Bool-cases, if◌then◌else◌, subst, not,
}
use aerospike_client_python.Stream.{
  Server, Next, row, stopped, raised, Stream, from_chunked, reached, pull, anext, close, More, more,
  failed, adopt, go_on, cursor_of, has_more_chunks,
}

module _ (S : Server) where
  -- The rows that a history of calls has delivered, newest first.
  abbrev deliver : Next S.Row → List S.Row → List S.Row
  deliver (row r) rows = r ∷ rows
  deliver stopped rows = rows
  deliver raised rows = rows

  -- A stream over a recordset, after calls of `__anext__`, `has_more_chunks` and `close` in any
  -- order; the list holds the rows that it has delivered.
  pub data Run (first : S.Recordset) (limit : ℕ) : Stream S → List S.Row → Type 0 where
    start : Run first limit (from_chunked S first limit) []
    by_anext :
        {s : Stream S} {rows : List S.Row}
        → Run first limit s rows
        → Run first limit (anext S s).1 (deliver (anext S s).0 rows)
    by_has_more_chunks :
        {s : Stream S} {rows : List S.Row}
        → Run first limit s rows
        → Run first limit (has_more_chunks S s).1 rows
    by_close :
        {s : Stream S} {rows : List S.Row}
        → Run first limit s rows
        → Run first limit (close S s) rows

  -- The counter holds the rows delivered, which the limit bounds.
  record IsCounted (limit : ℕ) (s : Stream S) (rows : List S.Row) : Type 0 where
    limit_kept : s.chunk_limit ≡ limit
    no_single : s.single_result ≡ none
    counted : s.counter ≡ length rows
    bounded : (limit ≡ 0) ⊎ (length rows ≤ limit)

  room : (limit n : ℕ) → reached S limit n ≡ false → (limit ≡ 0) ⊎ (suc n ≤ limit)
  room zero n h = inl refl
  room (suc k) n h = inr (ground arith)

  pull-IsCounted :
      (limit : ℕ) (s : Stream S) (rows : List S.Row) (source : List (Option S.Row))
      → IsCounted limit s rows
      → IsCounted limit (pull S s source).1 (deliver (pull S s source).0 rows)
  pull-IsCounted limit s rows [] h = h
  pull-IsCounted limit s rows (none ∷ rest) h = record {
    limit_kept = h.limit_kept;
    no_single = h.no_single;
    counted = h.counted;
    bounded = h.bounded;
  }
  pull-IsCounted limit s rows (some r ∷ rest) h =
      elim (Bool-cases (reached S s.chunk_limit s.counter)) [
        | inl p ↦ rw p (record {
          limit_kept = h.limit_kept;
          no_single = h.no_single;
          counted = h.counted;
          bounded = h.bounded;
        })
        | inr p ↦ rw p (record {
          limit_kept = h.limit_kept;
          no_single = h.no_single;
          counted = omega (arith, h.counted);
          bounded =
              subst (λ n. (limit ≡ 0) ⊎ (suc n ≤ limit)) h.counted
                (subst (λ l. (l ≡ 0) ⊎ (suc s.counter ≤ l)) h.limit_kept
                  (room s.chunk_limit s.counter p));
        })
      ]

  anext-IsCounted :
      (limit : ℕ) (s : Stream S) (rows : List S.Row)
      → IsCounted limit s rows
      → IsCounted limit (anext S s).1 (deliver (anext S s).0 rows)
  unfolding anext
  anext-IsCounted limit s rows h = go s.closed s.single_result h.no_single
    where
      go :
          (c : Bool) (o : Option S.Row)
          → o ≡ none
          → let r = if c then (stopped, s) else elim o as (λ _. Next S.Row × Stream S) [
            | some r ↦ (row r, record s { single_result = none; closed = true })
            | none ↦ pull S s s.source
          ] in
            IsCounted limit r.1 (deliver r.0 rows)
      go true o e = h
      go false none e = pull-IsCounted limit s rows s.source h
      go false (some r) e = absurd (cc e)

  go_on-IsCounted :
      (limit : ℕ) (s : Stream S) (rows : List S.Row) (c : Option (Option S.PartitionFilter))
      → IsCounted limit s rows
      → IsCounted limit (go_on S s c).1 rows
  go_on-IsCounted limit s rows none h = h
  go_on-IsCounted limit s rows (some none) h = h
  go_on-IsCounted limit s rows (some (some pf)) h = go (S.is_done pf) (S.reexecute pf)
    where
      go :
          (d : Bool) (o : Option S.Recordset)
          → IsCounted limit
              (if d then (more false, s) else elim o as (λ _. More S × Stream S) [
                | none ↦ (failed, s)
                | some recordset ↦ (more true, adopt S s recordset)
              ]).1
              rows
      go true o = h
      go false none = h
      go false (some recordset) = record {
        limit_kept = h.limit_kept;
        no_single = h.no_single;
        counted = h.counted;
        bounded = h.bounded;
      }

  has_more_chunks-IsCounted :
      (limit : ℕ) (s : Stream S) (rows : List S.Row)
      → IsCounted limit s rows
      → IsCounted limit (has_more_chunks S s).1 rows
  unfolding has_more_chunks
  has_more_chunks-IsCounted limit s rows h =
      go s.chunk_first s.chunked (reached S s.chunk_limit s.chunk_count)
    where
      go :
          (f c r : Bool)
          → IsCounted limit
              (if f
                then (more true, record s { chunk_first = false })
                else if not c
                then (more false, s)
                else if r
                then (more false, s)
                else go_on S s (cursor_of S s.chunk_recordset)).1
              rows
      go true c r = record {
        limit_kept = h.limit_kept;
        no_single = h.no_single;
        counted = h.counted;
        bounded = h.bounded;
      }
      go false false r = h
      go false true true = h
      go false true false = go_on-IsCounted limit s rows (cursor_of S s.chunk_recordset) h

  close-IsCounted :
      (limit : ℕ) (s : Stream S) (rows : List S.Row)
      → IsCounted limit s rows
      → IsCounted limit (close S s) rows
  unfolding close
  close-IsCounted limit s rows h = go s.closeable
    where
      go :
          (c : Option S.Recordset)
          → IsCounted limit
              (elim c as (λ _. Stream S) [
                | none ↦ record s { closed = true }
                | some c ↦ record s { closed = true; closeable = none; released = c ∷ s.released }
              ])
              rows
      go none = record {
        limit_kept = h.limit_kept;
        no_single = h.no_single;
        counted = h.counted;
        bounded = h.bounded;
      }
      go (some c) = record {
        limit_kept = h.limit_kept;
        no_single = h.no_single;
        counted = h.counted;
        bounded = h.bounded;
      }

  Run-IsCounted :
      {first : S.Recordset} {limit : ℕ} {s : Stream S} {rows : List S.Row}
      → Run first limit s rows
      → IsCounted limit s rows
  unfolding from_chunked
  Run-IsCounted start = record {
    limit_kept = refl;
    no_single = refl;
    counted = refl;
    bounded = inr (omega arith);
  }
  Run-IsCounted (by_anext r) = anext-IsCounted _ _ _ (Run-IsCounted r)
  Run-IsCounted (by_has_more_chunks r) = has_more_chunks-IsCounted _ _ _ (Run-IsCounted r)
  Run-IsCounted (by_close r) = close-IsCounted _ _ _ (Run-IsCounted r)

  -- However a query in chunks with a positive limit is iterated, advanced and closed, it delivers
  -- at most that many rows in all.
  pub Run-limit :
      {first : S.Recordset} {limit : ℕ} {s : Stream S} {rows : List S.Row}
      → Run first limit s rows
      → 0 < limit
      → length rows ≤ limit
  Run-limit r p = elim ((Run-IsCounted r).bounded) [ inl z ↦ absurd (omega (arith, z)) | inr b ↦ b ]
