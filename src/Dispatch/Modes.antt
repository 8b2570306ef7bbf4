-- ===== src/Dispatch/Modes.antt =====
-- The consistency modes of a batch: `_ensure_namespace_mode` and `_ensure_batch_namespace_modes` of
-- aerospike_sdk/aio/operations/query.py, and the modes and the gate of the implicit transaction in
-- aerospike_sdk/query_shared.py and implicit_txn.py.
pub mod Extra
pub mod Laws
use aerospike_client_python.Base.{
  String, str_eq, Bool, true, false, ◌&&◌, ◌||◌, not, any, is_none, is_some, Option, none, some,
  List, [], ◌∷◌, ◌⊎◌, inl, inr, if◌then◌else◌,
}
use aerospike_client_python.Base.Dict.{put}
use aerospike_client_python.Batch.Native.{Native}
use aerospike_client_python.Batch.Spec.{OperationSpec}
use aerospike_client_python.Policy.Settings.{Enums, Mode, ap, sc}
use aerospike_client_python.Policy.Behavior.{mode_eq}
use aerospike_client_python.Dispatch.{Context, mode_for_namespace}

abbrev pub is_sc : Mode → Bool
is_sc ap = false
is_sc sc = true

abbrev pub says_sc : String × Mode → Bool
says_sc (ns, mode) = is_sc mode

-- `extra.add(ns)` of a set, in the order of the first additions.
abbrev pub add : String → List String → List String
add ns [] = ns ∷ []
add ns (other ∷ extra) =
    let rest = add ns extra in if str_eq ns other then other ∷ extra else other ∷ rest

-- `BasePolicies` are the three base policies of a builder. The resolver asks the cluster, and may
-- raise.
module _ (N : Native) (Exception BasePolicies : Type 0) where
  pub record Modes : Type 0 where
    pub namespace : String
    pub resolver : Option (String → Exception ⊎ Mode)
    pub namespace_mode : Option Mode
    pub base : BasePolicies
    pub base_sc : BasePolicies
    pub batch_namespace_modes : Option (List (String × Mode))
    pub batch_any_sc : Bool

  abbrev pub ask : Option (String → Exception ⊎ Mode) → String → Exception ⊎ Mode
  ask none ns = inr ap
  ask (some resolve) ns = resolve ns

  abbrev pub switch : Mode → Modes → Modes
  switch ap s = s
  switch sc s = record s { base = s.base_sc }

  abbrev pub settle : Exception ⊎ Mode → Modes → Option Exception × Modes
  settle (inl e) s = (some e, s)
  settle (inr mode) s = (none, switch mode (record s { namespace_mode = some mode }))

  unfoldable pub ensure_namespace_mode : Modes → Option Exception × Modes
  ensure_namespace_mode s =
      if is_some s.namespace_mode then (none, s) else settle (ask s.resolver s.namespace) s

  abbrev pub add_other : String → String → List String → List String
  add_other namespace ns extra = if str_eq ns namespace then extra else add ns extra

  abbrev pub add_keys : String → List N.Key → List String → List String
  add_keys namespace [] extra = extra
  add_keys namespace (key ∷ keys) extra =
      add_keys namespace keys (add_other namespace (N.namespace key) extra)

  unfoldable pub collect_extra_batch_namespaces :
      String → List (OperationSpec N) → List String → List String
  collect_extra_batch_namespaces namespace [] extra = extra
  collect_extra_batch_namespaces namespace (spec ∷ specs) extra =
      collect_extra_batch_namespaces namespace specs (add_keys namespace spec.keys extra)

  -- `modes[ns] = await resolver(ns)` for each namespace of the set.
  abbrev pub resolve_all :
      (String → Exception ⊎ Mode)
      → List String
      → List (String × Mode)
      → Exception ⊎ List (String × Mode)
  resolve_all resolve [] modes = inr modes
  resolve_all resolve (ns ∷ extra) modes = elim (resolve ns) [
    | inl e ↦ inl e
    | inr mode ↦ resolve_all resolve extra (put str_eq ns mode modes)
  ]

  abbrev pub says_own_sc : Option Mode → Bool
  says_own_sc none = false
  says_own_sc (some mode) = is_sc mode

  abbrev pub escalated : Modes → Modes
  escalated s = record s { batch_any_sc = says_own_sc s.namespace_mode || s.batch_any_sc }

  abbrev pub keep_modes : Exception ⊎ List (String × Mode) → Modes → Option Exception × Modes
  keep_modes (inl e) s = (some e, s)
  keep_modes (inr modes) s = (
    none,
    record s {
      batch_namespace_modes = some modes;
      batch_any_sc = s.batch_any_sc || any says_sc modes;
    },
  )

  abbrev pub resolve_extra : List String → Modes → Option Exception × Modes
  unfolding resolve_all
  resolve_extra [] s = (none, s)
  resolve_extra (ns ∷ extra) s = keep_modes (resolve_all (ask s.resolver) (ns ∷ extra) []) s

  unfoldable pub ensure_batch_namespace_modes :
      List (OperationSpec N) → Modes → Option Exception × Modes
  unfolding collect_extra_batch_namespaces resolve_extra
  ensure_batch_namespace_modes specs s =
      resolve_extra (collect_extra_batch_namespaces s.namespace specs []) (escalated s)

  abbrev pub then_batch :
      List (OperationSpec N) → Option Exception × Modes → Option Exception × Modes
  unfolding ensure_batch_namespace_modes
  then_batch specs (some e, s) = (some e, s)
  then_batch specs (none, s) = ensure_batch_namespace_modes specs s

  -- The two calls that `execute` makes one after the other.
  unfoldable pub ensure_modes : List (OperationSpec N) → Modes → Option Exception × Modes
  unfolding then_batch ensure_namespace_mode
  ensure_modes specs s = then_batch specs (ensure_namespace_mode s)

  -- The modes that the policies of rows are made with, where the builder's own is `mode`.
  abbrev pub in_force : {E : Enums} → Context N E → Mode → Modes → Context N E
  in_force c mode s = record c {
    namespace = s.namespace;
    namespace_mode = mode;
    batch_namespace_modes = s.batch_namespace_modes;
  }

  unfoldable pub resolved_batch_mode : Mode → Modes → Mode
  resolved_batch_mode mode s = if s.batch_any_sc then sc else mode

  module _ (E : Enums) (c : Context N E) where
    abbrev pub other_mode : Mode → List N.Key → Bool
    unfolding mode_for_namespace
    other_mode first [] = false
    other_mode first (key ∷ keys) =
        let rest = other_mode first keys in
        if mode_eq (mode_for_namespace N E c (N.namespace key)) first then rest else true

    abbrev pub more_modes : List N.Key → Bool
    unfolding other_mode
    more_modes [] = false
    more_modes (key ∷ keys) = other_mode (mode_for_namespace N E c (N.namespace key)) keys

    unfoldable pub spec_modes_mixed : OperationSpec N → Bool
    unfolding more_modes
    spec_modes_mixed spec = is_some c.batch_namespace_modes && more_modes spec.keys

  -- `in_txn`: the builder has a transaction; `wraps`: the setting of the owning client, if it has
  -- one.
  unfoldable pub implicit_txn_enabled : (wraps : Option Bool) (in_txn : Bool) → Option Mode → Bool
  implicit_txn_enabled none in_txn mode = false
  implicit_txn_enabled (some wraps) in_txn mode = not in_txn && (says_own_sc mode && wraps)

  abbrev pub all_in : String → List N.Key → Bool
  all_in namespace [] = true
  all_in namespace (key ∷ keys) =
      let rest = all_in namespace keys in if str_eq (N.namespace key) namespace then rest else false

  unfoldable pub implicit_txn_precheck :
      (opted_out : Bool) (wraps : Option Bool) (in_txn : Bool) → Modes → List N.Key → Bool
  unfolding implicit_txn_enabled all_in
  implicit_txn_precheck opted_out wraps in_txn s keys =
      if opted_out || not (implicit_txn_enabled wraps in_txn s.namespace_mode)
      then false
      else all_in s.namespace keys
