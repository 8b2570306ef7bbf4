-- ===== src/Stream/Chunks.antt =====
-- The step from one chunk of a query to the next, in aerospike_sdk/record_stream.py.
use aerospike_client_python.Base.{
  ℕ, zero, suc, ◌≤◌, ◌<◌, ◌≡◌, refl, Bool, true, false, Option, none, some, List, [], ◌∷◌, arith,
  subst, sym,
}
use aerospike_client_python.Stream.{
  Server, Next, row, stopped, raised, Stream, reached, pull, anext, more, adopt, has_more_chunks,
}

module _ (S : Server) where
  not_reached_at_zero : (limit : ℕ) → reached S limit 0 ≡ false
  not_reached_at_zero zero = refl
  not_reached_at_zero (suc k) = ground arith

  -- A stream in the middle of its first chunk.
  abbrev pub in_first_chunk : S.Recordset → ℕ → ℕ → List (Option S.Row) → Stream S
  in_first_chunk recordset limit counter source = record {
    source = source;
    counter = counter;
    closed = false;
    single_result = none;
    closeable = some recordset;
    chunked = true;
    chunk_first = false;
    chunk_recordset = some recordset;
    chunk_limit = limit;
    chunk_count = 0;
    released = [];
  }

  abbrev no_row : Next S.Row → Bool
  no_row (row r) = false
  no_row stopped = true
  no_row raised = true

  pull-reached :
      (s : Stream S) (source : List (Option S.Row))
      → reached S s.chunk_limit s.counter ≡ true
      → no_row (pull S s source).0 ≡ true
  pull-reached s [] h = refl
  pull-reached s (none ∷ rest) h = refl
  pull-reached s (some r ∷ rest) h = rw h refl

  has_more_chunks_goes_on :
      (limit counter : ℕ) (source : List (Option S.Row)) {r r' : S.Recordset}
      {pf : S.PartitionFilter}
      → S.cursor r ≡ some (some pf)
      → S.is_done pf ≡ false
      → S.reexecute pf ≡ some r'
      → has_more_chunks S (in_first_chunk r limit counter source)
        ≡ (more true, adopt S (in_first_chunk r limit counter source) r')
  unfolding has_more_chunks
  has_more_chunks_goes_on limit counter source c d e = rw (not_reached_at_zero limit, c, d, e) refl

  -- When the rows of the first chunk have reached a positive limit and the server's cursor goes on,
  -- `has_more_chunks` answers true once more: it queries another chunk, which delivers no row.
  pub has_more_chunks_past_limit :
      (limit counter : ℕ) (source : List (Option S.Row)) {r r' : S.Recordset}
      {pf : S.PartitionFilter}
      → 0 < limit
      → limit ≤ counter
      → S.cursor r ≡ some (some pf)
      → S.is_done pf ≡ false
      → S.reexecute pf ≡ some r'
      → let after = has_more_chunks S (in_first_chunk r limit counter source) in
        (after.0 ≡ more true)
        × (after.1.chunk_recordset ≡ some r')
        × (no_row (anext S after.1).0 ≡ true)
  unfolding anext
  has_more_chunks_past_limit limit counter source {r} {r'} p q c d e =
      let s = in_first_chunk r limit counter source in
      subst
        (λ after.
          (after.0 ≡ more true)
          × (after.1.chunk_recordset ≡ some r')
          × (no_row (anext S after.1).0 ≡ true))
        (sym (has_more_chunks_goes_on limit counter source c d e))
        (refl, refl, pull-reached (adopt S s r') (S.items r') (ground arith))
