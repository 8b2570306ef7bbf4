-- ===== src/Batch/Runs/Overlap.antt =====
-- What `_specs_overlap_on_a_key` and `_specs_require_sequential_run` of
-- aerospike_sdk/query_shared.py answer.
use mathlib.Core.List.{map-append}
use aerospike_client_python.Base.{
  or_false, ◌+◌, ◌≤◌, ◌≡◌, refl, sym, ◌∙◌, ap, Bool, true, false, ◌&&◌, ◌||◌, inl, inr, List, [],
  ◌∷◌, ◌++◌, Option, none, some, map, append_assoc, append-nil, arith, any, any-append, length,
  length-append, leb, Bool-cases,
}
use aerospike_client_python.Batch.Native.{Native, IsLawful}
use aerospike_client_python.Batch.Runs.{
  Ident, ident_eq, holds, meets, Spec, ident, spec_idents, to_set, scan_keys, scan_specs, all_keys,
  specs_overlap_on_a_key, specs_require_sequential_run, RunState, run_loop, add_spec,
  spec_batch_runs,
}
use aerospike_client_python.Batch.Runs.Split.{meets-append_left, chain_idents, KeysApart}
use aerospike_client_python.Batch.Runs.Order.{ident_eq_iff}

-- Some key stands twice in the list.
abbrev pub repeats : List Ident → Bool
repeats [] = false
repeats (i ∷ is) = holds is i || repeats is

ident_eq_comm : (a b : Ident) → ident_eq a b ≡ ident_eq b a
ident_eq_comm a b = elim (Bool-cases (ident_eq a b)) [
  | inl p ↦ p ∙ sym ((ident_eq_iff b a).1 (sym ((ident_eq_iff a b).0 p)))
  | inr p ↦ elim (Bool-cases (ident_eq b a)) [
    | inl q ↦ absurd (cc (p, (ident_eq_iff a b).1 (sym ((ident_eq_iff b a).0 q))))
    | inr q ↦ p ∙ sym q
  ]
]

meets_one : (i : Ident) (is : List Ident) → meets (i ∷ []) is ≡ holds is i
meets_one i [] = refl
meets_one i (j ∷ is) = ground (arith, meets_one i is, ident_eq_comm i j)

-- The scan for a key seen before.
clash : List Ident → List Ident → Bool
clash seen [] = false
clash seen (i ∷ is) = holds seen i || clash (seen ++ (i ∷ [])) is

meets_nil_left : (is : List Ident) → meets [] is ≡ false
meets_nil_left [] = refl
meets_nil_left (i ∷ is) = meets_nil_left is

clash_lem : (seen is : List Ident) → clash seen is ≡ (meets seen is || repeats is)
unfolding clash
clash_lem seen [] = refl
clash_lem seen (i ∷ is) =
    ground
      (arith, clash_lem (seen ++ (i ∷ [])) is, meets-append_left seen (i ∷ []) is, meets_one i is)

repeats-append :
    (xs ys : List Ident) → repeats (xs ++ ys) ≡ ((repeats xs || repeats ys) || meets xs ys)
repeats-append [] ys = ground (arith, meets_nil_left ys)
repeats-append (x ∷ xs) ys = ground (
  arith,
  repeats-append xs ys,
  any-append (ident_eq x) xs ys,
  meets-append_left (x ∷ []) xs ys,
  meets_one x ys,
)

-- Where both branches of an optional result agree, so do the results.
option_ext :
    (f g : List Ident → Bool)
    → ((seen : List Ident) → f seen ≡ g seen)
    → (o : Option (List Ident))
    → ◌≡◌ {A = Bool}
        (elim o [ none ↦ true | some seen ↦ f seen ])
        (elim o [ none ↦ true | some seen ↦ g seen ])
option_ext f g h none = refl
option_ext f g h (some seen) = h seen

module _ (N : Native) where
  clash-scan_keys :
      (seen : List Ident) (keys : List N.Key) (rest : List Ident)
      → clash seen (map (ident N) keys ++ rest)
        ≡ elim (scan_keys N seen keys) [ none ↦ true | some seen' ↦ clash seen' rest ]
  unfolding clash scan_keys
  clash-scan_keys seen [] rest = refl
  clash-scan_keys seen (key ∷ keys) rest =
      ground (arith, clash-scan_keys (seen ++ (ident N key ∷ [])) keys rest)

  scan_specs_lem :
      (seen : List Ident) (specs : List (Spec N))
      → scan_specs N seen specs ≡ clash seen (chain_idents N specs)
  unfolding scan_specs clash
  scan_specs_lem seen [] = refl
  scan_specs_lem seen (spec ∷ specs) =
      option_ext (λ s. scan_specs N s specs) (λ s. clash s (chain_idents N specs))
        (λ s. scan_specs_lem s specs) (scan_keys N seen spec.keys)
      ∙ sym (clash-scan_keys seen spec.keys (chain_idents N specs))

  map-all_keys : (specs : List (Spec N)) → map (ident N) (all_keys N specs) ≡ chain_idents N specs
  map-all_keys [] = refl
  map-all_keys (spec ∷ specs) = rw (map-append, map-all_keys specs)

  module _ (L : IsLawful N) where
    any-key_eq :
        (key : N.Key) (set : List N.Key)
        → any (N.key_eq key) set ≡ false
        → holds (map (ident N) set) (ident N key) ≡ false
    any-key_eq key [] h = refl
    any-key_eq key (k ∷ set) h =
        let parts = or_false (N.key_eq key k) (any (N.key_eq key) set) h in
        let law = L.key_eq_of_digest key k in
        let same = ident_eq_iff (ident N key) (ident N k) in
        elim (Bool-cases (ident_eq (ident N key) (ident N k))) [
          | inl e ↦ absurd (cc (law (ap (λ i. i.1) (same.0 e)), parts.0))
          | inr e ↦ rw e (any-key_eq key set parts.1)
        ]

    length-to_set-le :
        (set keys : List N.Key) → length (to_set N set keys) ≤ length set + length keys
    unfolding to_set
    length-to_set-le set [] = omega arith
    length-to_set-le set (key ∷ keys) = ground (
      arith,
      length-to_set-le set keys,
      length-to_set-le (set ++ (key ∷ [])) keys,
      length-append set (key ∷ []),
    )

    -- A set as long as the list it was built from: no key stands twice.
    full_set :
        (set keys : List N.Key)
        → length (to_set N set keys) ≡ length set + length keys
        → (meets (map (ident N) set) (map (ident N) keys) ≡ false)
          × (repeats (map (ident N) keys) ≡ false)
    unfolding to_set
    full_set set [] h = (refl, refl)
    full_set set (key ∷ keys) h = elim (Bool-cases (any (N.key_eq key) set)) [
      | inl old ↦ absurd (omega (arith, length-to_set-le set keys, rw old at h))
      | inr new ↦
          let i = ident N key in
          let is = map (ident N) keys in
          let ih =
            full_set (set ++ (key ∷ [])) keys
              (omega (arith, rw new at h, length-append set (key ∷ []))) in
          let met : (meets (map (ident N) set) is ≡ false) × (holds is i ≡ false) = or_false _ _ (
            ground (
              arith,
              ih.0,
              map-append (ident N) set (key ∷ []),
              meets-append_left (map (ident N) set) (i ∷ []) is,
              meets_one i is,
            )) in
          ground (arith, any-key_eq key set new, met, ih.1)
    ]

    -- With keys that are equal when their digests are, a chain overlaps exactly when it has two
    -- segments or more and some key stands twice in it, be it in two segments or in one.
    pub specs_overlap_on_a_key_lem :
        (specs : List (Spec N))
        → specs_overlap_on_a_key N specs ≡ (leb 2 (length specs) && repeats (chain_idents N specs))
    unfolding specs_overlap_on_a_key clash
    specs_overlap_on_a_key_lem specs = ground (
      arith,
      scan_specs_lem [] specs,
      clash_lem [] (chain_idents N specs),
      meets_nil_left (chain_idents N specs),
      map-all_keys specs,
      (full_set [] (all_keys N specs)),
    )

  apart_of_repeats :
      (specs : List (Spec N)) → repeats (chain_idents N specs) ≡ false → KeysApart N specs
  apart_of_repeats [] h = tt
  apart_of_repeats (spec ∷ specs) h =
      let parts : (repeats (chain_idents N specs) ≡ false)
          × (meets (spec_idents N spec) (chain_idents N specs) ≡ false) =
        ground (arith, repeats-append (spec_idents N spec) (chain_idents N specs)) in
      (parts.1, apart_of_repeats specs parts.0)

  abbrev grown : RunState N → Spec N → RunState N
  grown s spec = record {
    runs = s.runs;
    run = s.run ++ (spec ∷ []);
    seen = s.seen ++ spec_idents N spec;
  }

  add_spec_fresh :
      (s : RunState N) (spec : Spec N)
      → meets s.seen (spec_idents N spec) ≡ false
      → add_spec N s spec ≡ grown s spec
  unfolding add_spec
  add_spec_fresh s spec h = rw h

  run_loop_apart :
      (s : RunState N) (specs : List (Spec N))
      → meets s.seen (chain_idents N specs) ≡ false
      → KeysApart N specs
      → (run_loop N s specs).runs ++ ((run_loop N s specs).run ∷ [])
        ≡ s.runs ++ ((s.run ++ specs) ∷ [])
  unfolding run_loop
  run_loop_apart s [] m h = rw append-nil
  run_loop_apart s (spec ∷ specs) m h =
      let is = spec_idents N spec in
      let rest = chain_idents N specs in
      let parts : (meets s.seen is ≡ false) × (meets s.seen rest ≡ false) =
        or_false _ _ (rw any-append at m) in
      ap (λ t. (run_loop N t specs).runs ++ ((run_loop N t specs).run ∷ []))
        (add_spec_fresh s spec parts.0)
      ∙ run_loop_apart (grown s spec) specs (rw (meets-append_left s.seen is rest, parts.1, h.0))
          h.1
      ∙ ap (λ run. s.runs ++ (run ∷ [])) (append_assoc s.run (spec ∷ []) specs)

  spec_batch_runs_apart :
      (specs : List (Spec N)) → KeysApart N specs → spec_batch_runs N specs ≡ specs ∷ []
  unfolding spec_batch_runs
  spec_batch_runs_apart specs h =
      run_loop_apart (record { runs = []; run = []; seen = [] }) specs
        (meets_nil_left (chain_idents N specs)) h

  apart_of_single : (specs : List (Spec N)) → leb 2 (length specs) ≡ false → KeysApart N specs
  apart_of_single [] h = tt
  apart_of_single (spec ∷ []) h = (refl, tt)
  apart_of_single (spec ∷ next ∷ specs) h = absurd (ground arith)

  -- With keys that are equal when their digests are, a chain that need not run in sequence is one
  -- batch: splitting it into runs gives it whole.
  pub specs_require_sequential_run-spec_batch_runs :
      (L : IsLawful N) (specs : List (Spec N))
      → specs_require_sequential_run N specs ≡ false
      → spec_batch_runs N specs ≡ specs ∷ []
  unfolding specs_require_sequential_run
  specs_require_sequential_run-spec_batch_runs L specs h =
      spec_batch_runs_apart specs (elim (Bool-cases (leb 2 (length specs))) [
        | inl many ↦ apart_of_repeats specs (ground (arith, specs_overlap_on_a_key_lem L specs))
        | inr few ↦ apart_of_single specs few
      ])
