-- ===== src/Policy/Behavior.antt =====
-- aerospike_sdk/policy/behavior.py: the tree of behaviors, each with its patches, the settings it
-- resolved when it was made or reloaded, and the live sessions bound to it.
pub mod Layers
pub mod Caches
pub mod Coherence
pub mod Predefined
use aerospike_client_python.Base.{
  ℕ, String, Bool, true, false, ◌&&◌, Option, none, some, List, [], ◌∷◌, map, str_eq, if◌then◌else◌,
}
use aerospike_client_python.Policy.Settings.{
  Enums, OpKind, read, write_retryable, write_non_retryable, OpShape, point, batch, query, Mode, ap,
  sc, Scope, all, reads, reads_point, reads_batch, reads_query, reads_ap, reads_sc, writes,
  writes_retryable, writes_non_retryable, writes_point, writes_batch, writes_query, writes_ap,
  writes_sc, system_txn_verify, system_txn_roll, scope_eq, Settings, unset, merge, resolution_order,
}

module _ (E : Enums) where
  -- A dict from scopes to settings, in the order of insertion.
  abbrev pub Patches : Type 0
  Patches = List (Scope × Settings E)

  unfoldable pub get : Patches → Scope → Option (Settings E)
  get [] s = none
  get ((t, p) ∷ patches) s = if scope_eq t s then some p else get patches s

  -- `patches[scope] = settings`
  unfoldable pub put : Patches → Scope → Settings E → Patches
  put [] s p = (s, p) ∷ []
  put ((t, q) ∷ patches) s p = if scope_eq t s then (t, p) ∷ patches else (t, q) ∷ put patches s p

  unfoldable pub set_if : Patches → Scope → Option (Settings E) → Patches
  unfolding put
  set_if patches s none = patches
  set_if patches s (some p) = put patches s p

  -- The loop over the scopes of one behavior.
  unfoldable pub layer : Patches → Settings E → List Scope → Settings E
  layer patches base [] = base
  layer patches base (s ∷ scopes) = elim (get patches s) [
    | none ↦ layer patches base scopes
    | some p ↦ layer patches (merge E base p) scopes
  ]

  -- `_resolve` of a behavior whose own patches come first in the chain, its parent's next.
  unfoldable pub resolve : List Patches → OpKind → OpShape → Mode → Settings E
  unfolding layer
  resolve [] kind shape mode = unset E
  resolve (patches ∷ parents) kind shape mode =
      layer patches (resolve parents kind shape mode) (resolution_order kind shape mode)

  unfoldable pub resolve_txn : List Patches → Scope → Settings E
  unfolding layer
  resolve_txn [] s = unset E
  resolve_txn (patches ∷ parents) s = layer patches (resolve_txn parents s) (all ∷ s ∷ [])

abbrev pub OpKey : Type 0
OpKey = OpKind × OpShape × Mode

abbrev modes : OpKind → OpShape → List OpKey → List OpKey
modes kind shape rest = (kind, shape, ap) ∷ (kind, shape, sc) ∷ rest

abbrev shapes : OpKind → List OpKey → List OpKey
shapes kind rest = modes kind point (modes kind batch (modes kind query rest))

-- `_ALL_KEYS`
abbrev pub all_keys : List OpKey
all_keys = shapes read (shapes write_retryable (shapes write_non_retryable []))

abbrev pub kind_eq : OpKind → OpKind → Bool
kind_eq read read = true
kind_eq write_retryable write_retryable = true
kind_eq write_non_retryable write_non_retryable = true
kind_eq _ _ = false

abbrev pub shape_eq : OpShape → OpShape → Bool
shape_eq point point = true
shape_eq batch batch = true
shape_eq query query = true
shape_eq _ _ = false

abbrev pub mode_eq : Mode → Mode → Bool
mode_eq ap ap = true
mode_eq sc sc = true
mode_eq _ _ = false

abbrev pub key_eq : OpKey → OpKey → Bool
key_eq (k, s, m) (k', s', m') = kind_eq k k' && (shape_eq s s' && mode_eq m m')

-- A live session: `cached` holds the policies that `_refresh_cached_policies` built last.
pub record Session (Policies : Type 0) : Type 0 where
  pub id : ℕ
  pub cached : Policies

-- What a call that may raise leaves, and whether it returned.
abbrev pub Attempt : Type 0 → Type 0
Attempt A = A × Bool

module _ (E : Enums) (Policies : Type 0) where
  pub record Node : Type 0 where
    -- the identity of the object
    pub id : ℕ
    pub name : String
    pub patches : Patches E
    pub resolved : List (OpKey × Settings E)
    pub resolved_txn : List (Scope × Settings E)
    pub sessions : List (Session Policies)

  -- A behavior with its children.
  mutual
    pub data Behavior : Type 0 where
      behavior : Node → Children → Behavior

    pub data Children : Type 0 where
      childless : Children
      child : Behavior → Children → Children

  abbrev pub node : Behavior → Node
  node (behavior n cs) = n
