-- ===== src/Dispatch/Apply.antt =====
-- The batch of UDF calls that spans consistency modes, in `_execute_batch_udf` of
-- aerospike_sdk/aio/operations/query.py: the keys are grouped by mode, and the answers merged.
pub mod Slots
pub mod Groups
pub mod Laws
use aerospike_client_python.Base.{
  ℕ, zero, suc, Option, none, some, List, [], ◌∷◌, ◌++◌, map, ◌⊎◌, inl, inr, if◌then◌else◌,
}
use aerospike_client_python.Batch.Native.{Native}
use aerospike_client_python.Batch.Spec.{OperationSpec}
use aerospike_client_python.Policy.Settings.{Enums, Mode}
use aerospike_client_python.Policy.Behavior.{mode_eq}
use aerospike_client_python.Dispatch.{Context, mode_for_namespace}
use aerospike_client_python.Dispatch.Policies.{BatchUdfPolicy, Caches, make_batch_udf_policy}

module _ (N : Native) where
  -- `{mode: [(index, key)]}`
  abbrev pub Groups : Type 0
  Groups = List (Mode × List (ℕ × N.Key))

  -- `groups.setdefault(mode, []).append(pair)`
  abbrev pub append_to : Mode → ℕ × N.Key → Groups → Groups
  append_to mode pair [] = (mode, pair ∷ []) ∷ []
  append_to mode pair ((other, pairs) ∷ groups) =
      let rest = append_to mode pair groups in
      if mode_eq mode other then (other, pairs ++ pair ∷ []) ∷ groups else (other, pairs) ∷ rest

  -- `for i, key in enumerate(spec.keys)`, from the index `i` on.
  abbrev pub group_from : (N.Key → Mode) → ℕ → List N.Key → Groups → Groups
  group_from mode_of i [] groups = groups
  group_from mode_of i (key ∷ keys) groups =
      group_from mode_of (suc i) keys (append_to (mode_of key) (i, key) groups)

  module _ {Record : Type 0} where
    -- `merged[i] = rec`, where `i` is in range.
    abbrev pub set_at : ℕ → Record → List (Option Record) → List (Option Record)
    set_at i rec [] = []
    set_at zero rec (slot ∷ merged) = some rec ∷ merged
    set_at (suc i) rec (slot ∷ merged) = slot ∷ set_at i rec merged

    -- `for (i, _), rec in zip(pairs, recs)`
    abbrev pub write_back :
        List (ℕ × N.Key) → List Record → List (Option Record) → List (Option Record)
    write_back [] recs merged = merged
    write_back ((i, key) ∷ pairs) [] merged = merged
    write_back ((i, key) ∷ pairs) (rec ∷ recs) merged = write_back pairs recs (set_at i rec merged)

module _ (N : Native) (E : Enums) (c : Context N E) (Record Exception : Type 0) where
  -- A call of `batch_apply`; the function and its arguments are those of the segment.
  pub record ApplyCall : Type 0 where
    pub keys : List N.Key
    pub udf_policy : Option (BatchUdfPolicy N E)

  -- How the calls end, the calls made, and the caches that they leave.
  abbrev pub Applied : Type 0
  Applied = (Exception ⊎ List (Option Record)) × (List ApplyCall × Caches N E)

  abbrev pub go_on :
      (List Record → Applied) → List ApplyCall → Caches N E → Exception ⊎ List Record → Applied
  go_on rest calls t (inl e) = (inl e, (calls, t))
  go_on rest calls t (inr recs) = rest recs

  -- The client answers a call, after those before it, with rows, or it raises.
  module _ (batch_apply : List ApplyCall → ApplyCall → Exception ⊎ List Record) where
    abbrev pub apply_groups :
        OperationSpec N → Groups N → List (Option Record) → List ApplyCall → Caches N E → Applied
    unfolding make_batch_udf_policy
    apply_groups spec [] merged calls t = (inr merged, (calls, t))
    apply_groups spec ((mode, pairs) ∷ groups) merged calls t =
        let made = make_batch_udf_policy N E c spec (some mode) t in
        let call : ApplyCall = record { keys = map (λ pair. pair.1) pairs; udf_policy = made.0 } in
        let called = calls ++ call ∷ [] in
        go_on (λ recs. apply_groups spec groups (write_back N pairs recs merged) called made.1)
          called made.1 (batch_apply calls call)

    abbrev pub own_mode : N.Key → Mode
    unfolding mode_for_namespace
    own_mode key = mode_for_namespace N E c (N.namespace key)

    unfoldable pub apply_by_mode : OperationSpec N → Caches N E → Applied
    unfolding apply_groups own_mode
    apply_by_mode spec t =
        apply_groups spec (group_from N own_mode 0 spec.keys []) (map (λ key. none) spec.keys) [] t
