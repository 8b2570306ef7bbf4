-- ===== src/Policy/Behavior/Caches.antt =====
-- The operations of `Behavior` in aerospike_sdk/policy/behavior.py that build and read the caches.
use aerospike_client_python.Base.{
  ℕ, String, Bool, true, false, Option, none, some, List, [], ◌∷◌, map, str_eq, if◌then◌else◌,
}
use aerospike_client_python.Policy.Settings.{
  Enums, OpKind, OpShape, Mode, Scope, all, reads, reads_point, reads_batch, reads_query, reads_ap,
  reads_sc, writes, writes_retryable, writes_non_retryable, writes_point, writes_batch,
  writes_query, writes_ap, writes_sc, system_txn_verify, system_txn_roll, scope_eq, Settings,
}
use aerospike_client_python.Policy.Registry.{Registry, register}
use aerospike_client_python.Policy.Behavior.{
  Patches, set_if, resolve, resolve_txn, OpKey, all_keys, key_eq, Session, Node, Behavior, behavior,
  Children, childless, child, Attempt,
}

-- A subscript of a dict; `none` is `KeyError`.
unfoldable pub lookup : {K V : Type 0} → (K → K → Bool) → List (K × V) → K → Option V
lookup eq [] k = none
lookup eq ((k', v) ∷ rest) k = if eq k' k then some v else lookup eq rest k

module _ (E : Enums) where
  -- `chain`: the behavior's own patches, then those of its parents.
  abbrev pub fresh : List (Patches E) → List (OpKey × Settings E)
  fresh chain = map (λ k. (k, resolve E chain k.0 k.1 k.2)) all_keys

  abbrev pub fresh_txn : List (Patches E) → List (Scope × Settings E)
  fresh_txn chain = map (λ s. (s, resolve_txn E chain s)) (system_txn_verify ∷ system_txn_roll ∷ [])

  -- The keyword arguments of `derive_with_changes`.
  pub record Changes : Type 0 where
    pub all : Option (Settings E)
    pub reads : Option (Settings E)
    pub reads_point : Option (Settings E)
    pub reads_batch : Option (Settings E)
    pub reads_query : Option (Settings E)
    pub reads_ap : Option (Settings E)
    pub reads_sc : Option (Settings E)
    pub writes : Option (Settings E)
    pub writes_retryable : Option (Settings E)
    pub writes_non_retryable : Option (Settings E)
    pub writes_point : Option (Settings E)
    pub writes_batch : Option (Settings E)
    pub writes_query : Option (Settings E)
    pub writes_ap : Option (Settings E)
    pub writes_sc : Option (Settings E)
    pub system_txn_verify : Option (Settings E)
    pub system_txn_roll : Option (Settings E)

  unfoldable pub patches_of : Changes → Patches E
  unfolding set_if
  patches_of c =
      let p₁ = set_if E [] all c.all in
      let p₂ = set_if E p₁ reads c.reads in
      let p₃ = set_if E p₂ reads_point c.reads_point in
      let p₄ = set_if E p₃ reads_batch c.reads_batch in
      let p₅ = set_if E p₄ reads_query c.reads_query in
      let p₆ = set_if E p₅ reads_ap c.reads_ap in
      let p₇ = set_if E p₆ reads_sc c.reads_sc in
      let p₈ = set_if E p₇ writes c.writes in
      let p₉ = set_if E p₈ writes_retryable c.writes_retryable in
      let q₁ = set_if E p₉ writes_non_retryable c.writes_non_retryable in
      let q₂ = set_if E q₁ writes_point c.writes_point in
      let q₃ = set_if E q₂ writes_batch c.writes_batch in
      let q₄ = set_if E q₃ writes_query c.writes_query in
      let q₅ = set_if E q₄ writes_ap c.writes_ap in
      let q₆ = set_if E q₅ writes_sc c.writes_sc in
      let q₇ = set_if E q₆ system_txn_verify c.system_txn_verify in
      set_if E q₇ system_txn_roll c.system_txn_roll

module _ (E : Enums) {Policies : Type 0} where
  unfoldable pub get_settings : Node E Policies → OpKind → OpShape → Mode → Option (Settings E)
  unfolding lookup
  get_settings n kind shape mode = lookup key_eq n.resolved (kind, shape, mode)

  unfoldable pub get_txn_verify_settings : Node E Policies → Option (Settings E)
  unfolding lookup
  get_txn_verify_settings n = lookup scope_eq n.resolved_txn system_txn_verify

  unfoldable pub get_txn_roll_settings : Node E Policies → Option (Settings E)
  unfolding lookup
  get_txn_roll_settings n = lookup scope_eq n.resolved_txn system_txn_roll

  unfoldable pub build_cache : List (Patches E) → Node E Policies → Node E Policies
  build_cache parents n = record n {
    resolved = fresh E (n.patches ∷ parents);
    resolved_txn = fresh_txn E (n.patches ∷ parents);
  }

  module _ (refresh : List (OpKey × Settings E) → Option Policies) where
    -- The loop over the sessions; `refresh` is `_refresh_cached_policies`, `none` its `ValueError`.
    unfoldable pub refresh_sessions :
        Node E Policies → List (Session Policies) → Attempt (List (Session Policies))
    refresh_sessions n [] = ([], true)
    refresh_sessions n (s ∷ ss) =
        let rest = refresh_sessions n ss in
        elim (refresh n.resolved) [
          | none ↦ (s ∷ ss, false)
          | some p ↦ (record s { cached = p } ∷ rest.0, rest.1)
        ]

    unfoldable mutual
      unfolding build_cache refresh_sessions

      pub clear_cache : List (Patches E) → Behavior E Policies → Attempt (Behavior E Policies)
      clear_cache parents (behavior n cs) =
          let n' = build_cache parents n in
          let ss = refresh_sessions n' n.sessions in
          let below = clear_children (n.patches ∷ parents) cs in
          if ss.1
          then (behavior (record n' { sessions = ss.0 }) below.0, below.1)
          else (behavior (record n' { sessions = ss.0 }) cs, false)

      pub clear_children : List (Patches E) → Children E Policies → Attempt (Children E Policies)
      clear_children parents childless = (childless, true)
      clear_children parents (child b cs) =
          let here = clear_cache parents b in
          let rest = clear_children parents cs in
          if here.1 then (child here.0 rest.0, rest.1) else (child here.0 cs, false)

    unfoldable pub reload_patches :
        List (Patches E) → Patches E → Behavior E Policies → Attempt (Behavior E Policies)
    unfolding clear_cache
    reload_patches parents patches (behavior n cs) =
        clear_cache parents (behavior (record n { patches = patches }) cs)

  abbrev pub children_with : Children E Policies → Behavior E Policies → Children E Policies
  children_with childless b = child b childless
  children_with (child c cs) b = child c (children_with cs b)

  -- The object that `__init__` makes: `self` is its identity.
  unfoldable pub new_behavior : List (Patches E) → ℕ → String → Patches E → Behavior E Policies
  unfolding build_cache
  new_behavior parents self name patches =
      behavior
        (build_cache parents (record {
          id = self;
          name = name;
          patches = patches;
          resolved = [];
          resolved_txn = [];
          sessions = [];
        }))
        childless

  -- `__init__` with a parent, which takes the new behavior as its last child; the registry takes
  -- it under its name.
  unfoldable pub init :
      List (Patches E)
      → ℕ
      → String
      → Patches E
      → Behavior E Policies × Registry
      → Behavior E Policies × Registry
  unfolding new_behavior register
  init parents self name patches (behavior n cs, registry) = (
    behavior n (children_with cs (new_behavior (n.patches ∷ parents) self name patches)),
    register self name registry,
  )

  unfoldable pub derive_with_changes :
      List (Patches E)
      → ℕ
      → String
      → Changes E
      → Behavior E Policies × Registry
      → Behavior E Policies × Registry
  unfolding patches_of init
  derive_with_changes parents self name c world = init parents self name (patches_of E c) world

  unfoldable pub register_session : Session Policies → Behavior E Policies → Behavior E Policies
  register_session s (behavior n cs) = behavior (record n { sessions = s ∷ n.sessions }) cs

  unfoldable mutual
    pub find_behavior : String → Behavior E Policies → Option (Node E Policies)
    find_behavior name (behavior n cs) =
        let below = find_in name cs in if str_eq n.name name then some n else below

    pub find_in : String → Children E Policies → Option (Node E Policies)
    find_in name childless = none
    find_in name (child b cs) =
        let rest = find_in name cs in elim (find_behavior name b) [ none ↦ rest | some n ↦ some n ]
