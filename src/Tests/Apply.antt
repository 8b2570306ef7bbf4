-- ===== src/Tests/Apply.antt =====
-- A UDF call on keys of two namespaces, one of each consistency mode, in turn.
use aerospike_client_python.Base.{
  ℕ, String, str_eq, true, false, Option, none, some, is_some, List, [], ◌∷◌, map, ◌≡◌, refl, ◌⊎◌,
  inr, if◌then◌else◌,
}
use aerospike_client_python.Batch.Native.{Native}
use aerospike_client_python.Batch.Spec.{OperationSpec}
use aerospike_client_python.Policy.Settings.{ap, sc}
use aerospike_client_python.Dispatch.{Context, mode_for_namespace}
use aerospike_client_python.Dispatch.Policies.{BatchUdfPolicy, no_caches, make_batch_udf_policy}
use aerospike_client_python.Dispatch.Policies.Laws.{no_caches-IsCoherent}
use aerospike_client_python.Dispatch.Apply.{ApplyCall, apply_by_mode}
use aerospike_client_python.Dispatch.Apply.Laws.{own_answer, apply_by_mode-own_answer}
use aerospike_client_python.Tests.Batch.{core}
use aerospike_client_python.Tests.Dispatch.{enums, by_mode}

abbrev two_spaces : Native
two_spaces = record core { namespace = λ key. if str_eq key "m" then "main" else "test" }

abbrev spread : OperationSpec two_spaces
spread = record {
  keys = "a" ∷ "m" ∷ "b" ∷ [];
  op_list = [];
  put_bins = none;
  bins = none;
  filter_expression = none;
  op_type = some "udf";
  generation = none;
  ttl_seconds = none;
  durable_delete = none;
  durable_delete_command_default = none;
  contains_record_delete_op = false;
  udf_package = some "p";
  udf_function = some "f";
  udf_args = none;
}

abbrev context : Context two_spaces enums
context = record {
  settings = λ kind shape mode. by_mode mode;
  namespace = "main";
  namespace_mode = ap;
  batch_namespace_modes = some (("test", sc) ∷ []);
  is_commit_all = λ level. true;
}

-- A row says whether its call had a policy of its own.
abbrev answer : String → Option (BatchUdfPolicy two_spaces enums) → String
answer key policy = if is_some policy then "durable" else key

abbrev batch_apply :
    List (ApplyCall two_spaces enums context String ℕ)
    → ApplyCall two_spaces enums context String ℕ
    → ℕ ⊎ List String
batch_apply calls call = inr (map (λ key. answer key call.udf_policy) call.keys)

spread_answers :
    (apply_by_mode two_spaces enums context String ℕ batch_apply spread
      (no_caches two_spaces enums)).0
    ≡ inr (some "durable" ∷ some "m" ∷ some "durable" ∷ [])
unfolding apply_by_mode make_batch_udf_policy mode_for_namespace
spread_answers = refl

apply_by_mode-own_answer_example :
    (apply_by_mode two_spaces enums context String ℕ batch_apply spread
      (no_caches two_spaces enums)).0
    ≡ inr (
        map
          (λ key. some (own_answer two_spaces enums context spread String ℕ answer key))
          ("a" ∷ "m" ∷ "b" ∷ []))
apply_by_mode-own_answer_example =
    apply_by_mode-own_answer two_spaces enums context spread String ℕ answer batch_apply
      (no_caches two_spaces enums) (λ calls call. refl)
      (no_caches-IsCoherent two_spaces enums context)
