-- ===== src/Batch/Runs/Split.antt =====
-- The runs that `_spec_batch_runs` of aerospike_sdk/query_shared.py makes: their order and their
-- keys.
use aerospike_client_python.Base.{
  or_false, ◌≡◌, refl, false, ◌||◌, inl, inr, List, [], ◌∷◌, ◌++◌, map, append_assoc, append-nil,
  arith, any-append, flatten, flatten-append, All, All-append, Bool-cases,
}
use aerospike_client_python.Batch.Native.{Native}
use aerospike_client_python.Batch.Runs.{
  Ident, meets, Spec, spec_idents, RunState, add_spec, run_loop, spec_batch_runs,
}

pub meets-append_left : (xs ys is : List Ident) → meets (xs ++ ys) is ≡ (meets xs is || meets ys is)
meets-append_left xs ys [] = refl
meets-append_left xs ys (i ∷ is) = rw (any-append) (ground (arith, meets-append_left xs ys is))

meets_nil : (xs : List Ident) → meets xs [] ≡ false
meets_nil xs = refl

module _ (N : Native) where
  abbrev pub chain_idents : List (Spec N) → List Ident
  chain_idents specs = flatten (map (spec_idents N) specs)

  -- No segment names a key of a later segment.
  abbrev pub KeysApart : List (Spec N) → Type 0
  KeysApart [] = Unit
  KeysApart (spec ∷ specs) =
      (meets (spec_idents N spec) (chain_idents specs) ≡ false) × KeysApart specs

  -- The segments of a state of the loop, cut into its runs.
  abbrev pub cut : RunState N → List (List (Spec N))
  cut s = s.runs ++ (s.run ∷ [])

  pub chain_idents-append :
      (xs ys : List (Spec N)) → chain_idents (xs ++ ys) ≡ chain_idents xs ++ chain_idents ys
  chain_idents-append [] ys = refl
  chain_idents-append (x ∷ xs) ys = rw (chain_idents-append xs ys, append_assoc)

  KeysApart-append :
      (xs : List (Spec N)) (spec : Spec N)
      → KeysApart xs
      → meets (chain_idents xs) (spec_idents N spec) ≡ false
      → KeysApart (xs ++ (spec ∷ []))
  KeysApart-append [] spec h m = (meets_nil (spec_idents N spec), tt)
  KeysApart-append (x ∷ xs) spec h m =
      let parts = or_false _ _ (rw meets-append_left at m) in
      (
        rw (chain_idents-append xs (spec ∷ []), append-nil, any-append, h.0) parts.0,
        KeysApart-append xs spec h.1 parts.1,
      )

  -- What holds whenever the loop's test is reached.
  record IsCut (s : RunState N) : Type 0 where
    closed_apart : All KeysApart s.runs
    open_apart : KeysApart s.run
    seen_idents : s.seen ≡ chain_idents s.run

  add_spec-IsCut : (s : RunState N) (spec : Spec N) → IsCut s → IsCut (add_spec N s spec)
  unfolding add_spec
  add_spec-IsCut s spec h = elim (Bool-cases (meets s.seen (spec_idents N spec))) [
    | inl again ↦ rw again (record {
      closed_apart = All-append KeysApart s.runs (s.run ∷ []) h.closed_apart (h.open_apart, tt);
      open_apart = (refl, tt);
      seen_idents = rw append-nil;
    })
    | inr fresh ↦ rw fresh (record {
      closed_apart = h.closed_apart;
      open_apart = KeysApart-append s.run spec h.open_apart (rw h.seen_idents at fresh);
      seen_idents = rw (chain_idents-append s.run (spec ∷ []), append-nil, h.seen_idents);
    })
  ]

  flatten-add_spec :
      (s : RunState N) (spec : Spec N)
      → flatten (cut (add_spec N s spec)) ≡ flatten (cut s) ++ (spec ∷ [])
  unfolding add_spec
  flatten-add_spec s spec = elim (Bool-cases (meets s.seen (spec_idents N spec))) [
    | inl again ↦ rw (again, flatten-append)
    | inr fresh ↦ rw (fresh, flatten-append, flatten-append) (simp (append-nil, append_assoc))
  ]

  run_loop-IsCut : (s : RunState N) (specs : List (Spec N)) → IsCut s → IsCut (run_loop N s specs)
  unfolding run_loop
  run_loop-IsCut s [] h = h
  run_loop-IsCut s (spec ∷ specs) h =
      run_loop-IsCut (add_spec N s spec) specs (add_spec-IsCut s spec h)

  flatten-run_loop :
      (s : RunState N) (specs : List (Spec N))
      → flatten (cut (run_loop N s specs)) ≡ flatten (cut s) ++ specs
  unfolding run_loop
  flatten-run_loop s [] = rw append-nil
  flatten-run_loop s (spec ∷ specs) =
      rw (flatten-run_loop (add_spec N s spec) specs, flatten-add_spec s spec, append_assoc)

  -- The batches, one after the other, are the chain: no segment is lost, repeated or moved.
  pub flatten-spec_batch_runs : (specs : List (Spec N)) → flatten (spec_batch_runs N specs) ≡ specs
  unfolding spec_batch_runs
  flatten-spec_batch_runs specs = flatten-run_loop (record { runs = []; run = []; seen = [] }) specs

  -- Inside a run no key is named by two segments.
  pub spec_batch_runs-KeysApart : (specs : List (Spec N)) → All KeysApart (spec_batch_runs N specs)
  unfolding spec_batch_runs
  spec_batch_runs-KeysApart specs =
      let start : RunState N = record { runs = []; run = []; seen = [] } in
      let h =
        run_loop-IsCut start specs
          (record { closed_apart = tt; open_apart = tt; seen_idents = refl }) in
      All-append KeysApart (run_loop N start specs).runs _ h.closed_apart (h.open_apart, tt)
