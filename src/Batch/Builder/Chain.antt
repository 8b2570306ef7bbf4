-- ===== src/Batch/Builder/Chain.antt =====
-- `_apply_chain_defaults` and `_finalize_chain` of aerospike_sdk/query_shared.py.
pub mod Defaults
pub mod Laws
use aerospike_client_python.Base.{
  ℤ, String, Bool, true, false, ◌&&◌, ◌||◌, not, Option, none, some, List, [], ◌∷◌, map, is_some,
  if◌then◌else◌,
}
use aerospike_client_python.Batch.Native.{Native}
use aerospike_client_python.Batch.Spec.{OperationSpec}
use aerospike_client_python.Batch.Builder.{Builder, Outcome, done, ◌>>=◌}
use aerospike_client_python.Batch.Builder.Finalize.{
  resolve_default_filter_expression, finalize_current_spec,
}
use aerospike_client_python.Batch.Builder.Select.{select_keys}

-- `own if own is not None else default`
abbrev pub or_default : {A : Type 0} → Option A → Option A → Option A
or_default none d = d
or_default (some a) d = some a

module _ (N : Native) where
  abbrev pub with_defaults :
      Option N.FilterExpression → Option ℤ → List (OperationSpec N) → List (OperationSpec N)
  with_defaults filt ttl [] = []
  with_defaults filt ttl (spec ∷ specs) =
      record spec {
        filter_expression = or_default spec.filter_expression filt;
        ttl_seconds = or_default spec.ttl_seconds ttl;
      }
      ∷ with_defaults filt ttl specs

  abbrev pub set_defaults : Builder N → Outcome N
  set_defaults b =
      done (record b {
        specs = with_defaults b.default_filter_expression b.default_ttl_seconds b.specs;
      })

  unfoldable pub apply_chain_defaults : Builder N → Outcome N
  apply_chain_defaults b = resolve_default_filter_expression N b >>= set_defaults

  abbrev pub has_defaults : Builder N → Bool
  has_defaults b =
      is_some b.default_filter_expression
      || (is_some b.default_where_ael || is_some b.default_ttl_seconds)

  abbrev pub nonempty : List (OperationSpec N) → Bool
  nonempty [] = false
  nonempty (_ ∷ _) = true

  abbrev pub wants_selection : Builder N → Bool
  wants_selection b =
      nonempty b.specs && (not b.keys_selected && (is_some b.limit || is_some b.partition_filter))

  abbrev pub default_step : Builder N → Outcome N
  default_step b = if has_defaults b then apply_chain_defaults b else done b

  abbrev pub select_step : Builder N → Outcome N
  select_step b = if wants_selection b then select_keys N b else done b

  unfoldable pub finalize_chain : Builder N → Outcome N
  unfolding apply_chain_defaults finalize_current_spec select_keys resolve_default_filter_expression
  finalize_chain b = (finalize_current_spec N b >>= default_step) >>= select_step
