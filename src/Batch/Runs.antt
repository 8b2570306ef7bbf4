-- ===== src/Batch/Runs.antt =====
-- Which segments of a chain may share a batch: `_specs_overlap_on_a_key`,
-- `_specs_require_sequential_run` and `_spec_batch_runs` of aerospike_sdk/query_shared.py.
pub mod Split
pub mod Optimal
pub mod Overlap
pub mod Order
use aerospike_client_python.Base.{
  ℕ, String, Bool, true, false, ◌&&◌, ◌||◌, Option, none, some, List, [], ◌∷◌, ◌++◌, map, length,
  any, flatten, ltb, ◌==◌, str_eq, if◌then◌else◌,
}
use aerospike_client_python.Batch.Native.{Native}
use aerospike_client_python.Batch.Spec.{OperationSpec}

-- `(key.namespace, key.digest)`
abbrev pub Ident : Type 0
Ident = String × String

abbrev pub ident_eq : Ident → Ident → Bool
ident_eq (n, d) (m, e) = str_eq n m && str_eq d e

-- `ident in seen`, the set kept as a list
abbrev pub holds : List Ident → Ident → Bool
holds seen i = any (ident_eq i) seen

-- `seen & idents` is not empty
abbrev pub meets : List Ident → List Ident → Bool
meets seen = any (holds seen)

module _ (N : Native) where
  abbrev pub Spec : Type 0
  Spec = OperationSpec N

  abbrev pub ident : N.Key → Ident
  ident key = (N.namespace key, N.digest key)

  -- `{(key.namespace, key.digest) for key in spec.keys}`
  abbrev pub spec_idents : Spec → List Ident
  spec_idents spec = map ident spec.keys

  -- `set(keys)`, in insertion order
  pub to_set : List N.Key → List N.Key → List N.Key
  to_set set [] = set
  to_set set (key ∷ keys) = to_set (if any (N.key_eq key) set then set else set ++ (key ∷ [])) keys

  -- The inner loop of the confirmation: `none` where it returns `True`, else the grown `seen`.
  pub scan_keys : List Ident → List N.Key → Option (List Ident)
  scan_keys seen [] = some seen
  scan_keys seen (key ∷ keys) =
      let rest = scan_keys (seen ++ (ident key ∷ [])) keys in
      if holds seen (ident key) then none else rest

  pub scan_specs : List Ident → List Spec → Bool
  scan_specs seen [] = false
  scan_specs seen (spec ∷ specs) = elim (scan_keys seen spec.keys) [
    | none ↦ true
    | some seen' ↦ scan_specs seen' specs
  ]

  abbrev pub all_keys : List Spec → List N.Key
  all_keys specs = flatten (map (λ spec. spec.keys) specs)

  unfoldable pub specs_overlap_on_a_key : List Spec → Bool
  unfolding to_set scan_keys scan_specs
  specs_overlap_on_a_key specs =
      if ltb (length specs) 2
      then false
      else let keys = all_keys specs in
        if length (to_set [] keys) == length keys then false else scan_specs [] specs

  abbrev pub is_udf : Option String → Bool
  is_udf none = false
  is_udf (some op_type) = str_eq op_type "udf"

  abbrev pub first_is_udf : List Spec → Bool
  first_is_udf [] = false
  first_is_udf (spec ∷ _) = is_udf spec.op_type

  unfoldable pub specs_require_sequential_run : List Spec → Bool
  unfolding specs_overlap_on_a_key
  specs_require_sequential_run specs =
      if (length specs == 1) && first_is_udf specs then true else specs_overlap_on_a_key specs

  -- The variables of the loop in `_spec_batch_runs`.
  pub record RunState : Type 0 where
    pub runs : List (List Spec)
    pub run : List Spec
    pub seen : List Ident

  -- One round of the loop.
  pub add_spec : RunState → Spec → RunState
  add_spec s spec =
      if meets s.seen (spec_idents spec)
      then record { runs = s.runs ++ (s.run ∷ []); run = spec ∷ []; seen = spec_idents spec }
      else record { runs = s.runs; run = s.run ++ (spec ∷ []); seen = s.seen ++ spec_idents spec }

  pub run_loop : RunState → List Spec → RunState
  run_loop s [] = s
  run_loop s (spec ∷ specs) = run_loop (add_spec s spec) specs

  unfoldable pub spec_batch_runs : List Spec → List (List Spec)
  unfolding add_spec run_loop
  spec_batch_runs specs =
      let s = run_loop (record { runs = []; run = []; seen = [] }) specs in s.runs ++ (s.run ∷ [])
