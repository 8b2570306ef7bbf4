-- ===== src/Tests/Batch.antt =====
-- Chains of segments on the keys of one namespace, and the theorems on them.
use mathlib.Core.List.{Permᴰ}
use aerospike_client_python.Base.{
  ℕ, suc, ◌≤◌, ◌≡◌, refl, String, true, false, Option, none, some, List, [], ◌∷◌, flatten, length,
  leb, str_eq, eq_iff, ◌&&◌, if◌then◌else◌,
}
use aerospike_client_python.Batch.Native.{Native, IsLawful}
use aerospike_client_python.Batch.Spec.{OperationSpec}
use aerospike_client_python.Batch.Runs.{spec_batch_runs, specs_overlap_on_a_key}
use aerospike_client_python.Batch.Runs.Split.{chain_idents, flatten-spec_batch_runs}
use aerospike_client_python.Batch.Runs.Optimal.{length-spec_batch_runs-le}
use aerospike_client_python.Batch.Runs.Overlap.{repeats, specs_overlap_on_a_key_lem}
use aerospike_client_python.Batch.Runs.Order.{rows, run_rows, Served, spec_batch_runs-in_order}

-- Keys are their digests, all in one namespace and one partition.
abbrev pub core : Native
core = record {
  Key = String;
  Operation = String;
  FilterExpression = String;
  Value = ℕ;
  namespace = λ key. "test";
  digest = λ key. key;
  key_eq = str_eq;
  partition_id = λ key. if str_eq key "a" then 7 else 9;
  PartitionFilter = ℕ × ℕ;
  by_range = λ b c. (b, c);
  begin = λ pf. pf.0;
  count = λ pf. pf.1;
  has_resume_state = λ pf. false;
  put = λ name value. name;
  is_cdt = λ op. false;
  from_server_compiled_ael = λ ael. ael;
}

pub core-IsLawful : IsLawful core
core-IsLawful = record {
  key_eq_of_digest = λ a b e. (eq_iff a b).1 e;
  begin-by_range = λ b c. refl;
  count-by_range = λ b c. refl;
  has_resume_state-by_range = λ b c. refl;
}

abbrev pub segment : List String → Option String → OperationSpec core
segment keys op_type = record {
  keys = keys;
  op_list = [];
  put_bins = none;
  bins = none;
  filter_expression = none;
  op_type = op_type;
  generation = none;
  ttl_seconds = none;
  durable_delete = none;
  durable_delete_command_default = none;
  contains_record_delete_op = false;
  udf_package = none;
  udf_function = none;
  udf_args = none;
}

abbrev pub upsert_ab : OperationSpec core
upsert_ab = segment ("a" ∷ "b" ∷ []) (some "upsert")

abbrev pub upsert_c : OperationSpec core
upsert_c = segment ("c" ∷ []) (some "upsert")

abbrev pub delete_a : OperationSpec core
delete_a = segment ("a" ∷ []) (some "delete")

abbrev pub read_d : OperationSpec core
read_d = segment ("d" ∷ []) none

abbrev pub chain : List (OperationSpec core)
chain = upsert_ab ∷ upsert_c ∷ delete_a ∷ []

two_batches : spec_batch_runs core chain ≡ (upsert_ab ∷ upsert_c ∷ []) ∷ (delete_a ∷ []) ∷ []
unfolding spec_batch_runs
two_batches = refl

flatten-spec_batch_runs_example : flatten (spec_batch_runs core chain) ≡ chain
flatten-spec_batch_runs_example = flatten-spec_batch_runs core chain

abbrev pub three_batches : List (List (OperationSpec core))
three_batches = (upsert_ab ∷ []) ∷ (upsert_c ∷ []) ∷ (delete_a ∷ []) ∷ []

length-spec_batch_runs-le_example :
    length (spec_batch_runs core (flatten three_batches)) ≤ length three_batches
length-spec_batch_runs-le_example =
    length-spec_batch_runs-le core three_batches (λ e. absurd (cc e))
      ((refl, tt), ((refl, tt), ((refl, tt), tt)))

specs_overlap_on_a_key_example :
    specs_overlap_on_a_key core chain ≡ (leb 2 (length chain) && repeats (chain_idents core chain))
specs_overlap_on_a_key_example = specs_overlap_on_a_key_lem core core-IsLawful chain

-- A record is the number of writes that it saw, and a delete empties it.
abbrev pub effect : OperationSpec core → ℕ → ℕ
effect spec n = elim spec.op_type [
  | none ↦ n
  | some op_type ↦ elim (str_eq op_type "delete") [ true ↦ 0 | false ↦ suc n ]
]

-- The server takes the rows of the first batch from last to first.
abbrev pub orders : List (List ((String × String) × OperationSpec core))
orders =
    ((("test", "c"), upsert_c) ∷ (("test", "b"), upsert_ab) ∷ (("test", "a"), upsert_ab) ∷ [])
    ∷ ((("test", "a"), delete_a) ∷ [])
    ∷ []

served : Served core effect (spec_batch_runs core chain) orders
unfolding spec_batch_runs rows
served = (
  Permᴰ.trans (Permᴰ.cons refl (Permᴰ.swap refl refl))
      (Permᴰ.trans (Permᴰ.swap refl refl) (Permᴰ.cons refl (Permᴰ.swap refl refl))),
  (Permᴰ.cons refl Permᴰ.nil, tt),
)

spec_batch_runs-in_order_example :
    run_rows core effect (λ i. 0) (flatten orders)
    ≡ run_rows core effect (λ i. 0) (rows core effect chain)
spec_batch_runs-in_order_example = spec_batch_runs-in_order core effect chain orders (λ i. 0) served
