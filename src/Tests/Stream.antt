-- ===== src/Tests/Stream.antt =====
-- A query of three rows in chunks, and the theorems on its limit.
use aerospike_client_python.Stream.Collect.{at, allowed, finished, collect, collect_lem}
use aerospike_client_python.Base.{map, false, ℕ, suc, ◌≤◌, ◌≡◌, false, some, [], ◌∷◌, length, arith}
use aerospike_client_python.Stream.{Server, from_chunked, anext, has_more_chunks}
use aerospike_client_python.Stream.Limit.{Run, start, by_anext, by_has_more_chunks, Run-limit}

-- Chunk `n` holds the rows `n` and `n + 1`, and its cursor goes on to the next.
abbrev counting : Server
counting = record {
  Row = ℕ;
  Recordset = ℕ;
  PartitionFilter = ℕ;
  items = λ n. some n ∷ some (suc n) ∷ [];
  cursor = λ n. some (some n);
  is_done = λ n. false;
  reexecute = λ n. some (suc n);
}

two_rows :
    Run counting 4 2
      (anext counting (anext counting (has_more_chunks counting (from_chunked counting 4 2)).1).1).1
      (5 ∷ 4 ∷ [])
unfolding anext has_more_chunks from_chunked
two_rows = by_anext (by_anext (by_has_more_chunks start))

Run-limit_example : length {A = ℕ} (5 ∷ 4 ∷ []) ≤ 2
Run-limit_example = Run-limit counting two_rows (omega arith)

-- One row was counted in an earlier chunk, and the limit is two.
collect_example :
    collect counting (at counting (from_chunked counting 4 2) false (map some (4 ∷ 5 ∷ [])) 1)
    ≡ finished (allowed counting 2 1 (4 ∷ 5 ∷ []))
unfolding from_chunked
collect_example = collect_lem counting (from_chunked counting 4 2) (4 ∷ 5 ∷ []) 1
