-- ===== src/Batch/Runs/Optimal.antt =====
-- The number of runs that `_spec_batch_runs` of aerospike_sdk/query_shared.py makes.
use aerospike_client_python.Base.{
  or_false, ℕ, suc, ◌+◌, ◌≤◌, ◌-◌, ◌≡◌, ◌≢◌, refl, true, false, List, [], ◌∷◌, ◌++◌, append_assoc,
  append-nil, arith, any-append, length, length-append, flatten, All,
}
use aerospike_client_python.Batch.Native.{Native}
use aerospike_client_python.Batch.Runs.{
  Ident, meets, Spec, spec_idents, RunState, add_spec, run_loop, spec_batch_runs,
}
use aerospike_client_python.Batch.Runs.Split.{meets-append_left, chain_idents, KeysApart}

meets_nil_left : (is : List Ident) → meets [] is ≡ false
meets_nil_left [] = refl
meets_nil_left (i ∷ is) = meets_nil_left is

module _ (N : Native) where
  -- How many runs the loop still closes, from the keys of the open run.
  cuts : List Ident → List (Spec N) → ℕ
  cuts seen [] = 0
  cuts seen (spec ∷ specs) = elim (meets seen (spec_idents N spec)) [
    | true ↦ suc (cuts (spec_idents N spec) specs)
    | false ↦ cuts (seen ++ spec_idents N spec) specs
  ]

  length-run_loop :
      (s : RunState N) (specs : List (Spec N))
      → length (run_loop N s specs).runs ≡ length s.runs + cuts s.seen specs
  unfolding run_loop add_spec cuts
  length-run_loop s [] = omega arith
  length-run_loop s (spec ∷ specs) = ground (
    arith,
    length-run_loop
        (record { runs = s.runs ++ (s.run ∷ []); run = spec ∷ []; seen = spec_idents N spec })
        specs,
    length-run_loop
        (record { runs = s.runs; run = s.run ++ (spec ∷ []); seen = s.seen ++ spec_idents N spec })
        specs,
    length-append s.runs (s.run ∷ []),
  )

  -- Fewer keys in the open run cost no more cuts, and at most one cut is saved by starting afresh.
  cuts_mono_and_fresh :
      (seen new : List Ident) (specs : List (Spec N))
      → (cuts new specs ≤ cuts (seen ++ new) specs)
        × (cuts (seen ++ new) specs ≤ suc (cuts new specs))
  unfolding cuts
  cuts_mono_and_fresh seen new [] = (omega arith, omega arith)
  cuts_mono_and_fresh seen new (spec ∷ specs) =
      let is = spec_idents N spec in
      ground (
        arith,
        cuts_mono_and_fresh seen (new ++ is) specs,
        cuts_mono_and_fresh new is specs,
        meets-append_left seen new is,
        append_assoc seen new is,
      )

  -- A first run without a repeated key closes no run of its own.
  cuts-append-le :
      (seen : List Ident) (xs ys : List (Spec N))
      → meets seen (chain_idents N xs) ≡ false
      → KeysApart N xs
      → cuts seen (xs ++ ys) ≤ cuts (seen ++ chain_idents N xs) ys
  unfolding cuts
  cuts-append-le seen [] ys m h = rw append-nil (omega arith)
  cuts-append-le seen (x ∷ xs) ys m h =
      let is = spec_idents N x in
      let rest = chain_idents N xs in
      let parts : (meets seen is ≡ false) × (meets seen rest ≡ false) =
        or_false _ _ (rw any-append at m) in
      let ih =
        cuts-append-le (seen ++ is) xs ys (rw (meets-append_left seen is rest, parts.1, h.0)) h.1 in
      ground (arith, parts.0, ih, append_assoc seen is rest)

  cuts-flatten-le :
      (split : List (List (Spec N)))
      → All (KeysApart N) split
      → cuts [] (flatten split) ≤ length split - 1
  unfolding cuts
  cuts-flatten-le [] h = omega arith
  cuts-flatten-le (run ∷ []) h =
      omega (arith, cuts-append-le [] run [] (meets_nil_left (chain_idents N run)) h.0)
  cuts-flatten-le (run ∷ next ∷ split) h =
      let is = chain_idents N run in
      let specs = flatten (next ∷ split) in
      let first : cuts [] (run ++ specs) ≤ cuts is specs =
        cuts-append-le [] run specs (meets_nil_left is) h.0 in
      let fresh : cuts is specs ≤ suc (cuts [] specs) =
        rw append-nil at ((cuts_mono_and_fresh is [] specs).1) in
      omega (arith, first, fresh, cuts-flatten-le (next ∷ split) h.1)

  -- However a chain is split into one or more batches in which no two segments share a key, the
  -- split that the builder makes has no more batches.
  pub length-spec_batch_runs-le :
      (split : List (List (Spec N)))
      → split ≢ []
      → All (KeysApart N) split
      → length (spec_batch_runs N (flatten split)) ≤ length split
  unfolding spec_batch_runs
  length-spec_batch_runs-le [] some_run h = absurd (some_run refl)
  length-spec_batch_runs-le (run ∷ split) some_run h =
      let start : RunState N = record { runs = []; run = []; seen = [] } in
      let specs = flatten (run ∷ split) in
      omega (
        arith,
        length-run_loop start specs,
        length-append (run_loop N start specs).runs ((run_loop N start specs).run ∷ []),
        cuts-flatten-le (run ∷ split) h,
      )
