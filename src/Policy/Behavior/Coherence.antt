-- ===== src/Policy/Behavior/Coherence.antt =====
-- The caches of the behaviors of aerospike_sdk/policy/behavior.py, and of their live sessions,
-- against the patches that they stand for.
use aerospike_client_python.Base.{
  ℕ, str_eq, if◌then◌else◌, ◌≡◌, refl, sym, subst, String, true, false, Option, some, List, [], ◌∷◌,
  All, Bool-cases, Option-cases, inl, inr,
}
use aerospike_client_python.Policy.Settings.{
  Enums, OpKind, read, write_retryable, write_non_retryable, OpShape, point, batch, query, Mode,
  ap as ap_mode, sc, Settings, system_txn_verify, system_txn_roll,
}
use aerospike_client_python.Policy.Registry.{Registry, get_behavior}
use aerospike_client_python.Policy.Registry.Laws.{get_behavior-register}
use aerospike_client_python.Policy.Behavior.{
  Patches, resolve, resolve_txn, OpKey, Session, Node, Behavior, behavior, Children, childless,
  child, node,
}
use aerospike_client_python.Policy.Behavior.Caches.{
  lookup, get_settings, get_txn_verify_settings, get_txn_roll_settings, fresh, build_cache,
  refresh_sessions, clear_cache, clear_children, reload_patches, Changes, children_with, patches_of,
  new_behavior, derive_with_changes, register_session,
}

module _ (E : Enums) {Policies : Type 0}
    (refresh : List (OpKey × Settings E) → Option Policies) where
  -- What a behavior answers is what its patches and its parents' resolve to, and every session
  -- bound to it holds the policies of those settings.
  pub record IsFresh (chain : List (Patches E)) (n : Node E Policies) : Type 0 where
    pub settings :
        (kind : OpKind) (shape : OpShape) (mode : Mode)
        → get_settings E n kind shape mode ≡ some (resolve E chain kind shape mode)
    pub verify : get_txn_verify_settings E n ≡ some (resolve_txn E chain system_txn_verify)
    pub roll : get_txn_roll_settings E n ≡ some (resolve_txn E chain system_txn_roll)
    pub sessions : All (λ s. refresh (fresh E chain) ≡ some s.cached) n.sessions

  -- A behavior and all its descendants are fresh; `parents`: the patches above it.
  unfoldable mutual
    pub AllFresh : List (Patches E) → Behavior E Policies → Type 0
    AllFresh parents (behavior n cs) =
        IsFresh (n.patches ∷ parents) n × AllFreshIn (n.patches ∷ parents) cs

    pub AllFreshIn : List (Patches E) → Children E Policies → Type 0
    AllFreshIn parents childless = Unit
    AllFreshIn parents (child b cs) = AllFresh parents b × AllFreshIn parents cs

  get_settings-fresh :
      (chain : List (Patches E)) (n : Node E Policies)
      → n.resolved ≡ fresh E chain
      → (kind : OpKind) (shape : OpShape) (mode : Mode)
      → get_settings E n kind shape mode ≡ some (resolve E chain kind shape mode)
  unfolding get_settings lookup
  get_settings-fresh chain n h read point ap_mode = rw h refl
  get_settings-fresh chain n h read point sc = rw h refl
  get_settings-fresh chain n h read batch ap_mode = rw h refl
  get_settings-fresh chain n h read batch sc = rw h refl
  get_settings-fresh chain n h read query ap_mode = rw h refl
  get_settings-fresh chain n h read query sc = rw h refl
  get_settings-fresh chain n h write_retryable point ap_mode = rw h refl
  get_settings-fresh chain n h write_retryable point sc = rw h refl
  get_settings-fresh chain n h write_retryable batch ap_mode = rw h refl
  get_settings-fresh chain n h write_retryable batch sc = rw h refl
  get_settings-fresh chain n h write_retryable query ap_mode = rw h refl
  get_settings-fresh chain n h write_retryable query sc = rw h refl
  get_settings-fresh chain n h write_non_retryable point ap_mode = rw h refl
  get_settings-fresh chain n h write_non_retryable point sc = rw h refl
  get_settings-fresh chain n h write_non_retryable batch ap_mode = rw h refl
  get_settings-fresh chain n h write_non_retryable batch sc = rw h refl
  get_settings-fresh chain n h write_non_retryable query ap_mode = rw h refl
  get_settings-fresh chain n h write_non_retryable query sc = rw h refl

  refresh_sessions-fresh :
      (n : Node E Policies) (ss : List (Session Policies))
      → (refresh_sessions E refresh n ss).1 ≡ true
      → All (λ s. refresh n.resolved ≡ some s.cached) (refresh_sessions E refresh n ss).0
  unfolding refresh_sessions
  refresh_sessions-fresh n [] h = tt
  refresh_sessions-fresh n (s ∷ ss) h = elim (Option-cases (refresh n.resolved)) [
    | inl p ↦ absurd (let q : false ≡ true = rw (p, refresh_sessions) at h in cc q)
    | inr (x, p) ↦
        let q : (refresh_sessions E refresh n ss).1 ≡ true = rw (p, refresh_sessions) at h in
        let e : refresh_sessions E refresh n (s ∷ ss) ≡ (
          record s { cached = x } ∷ (refresh_sessions E refresh n ss).0,
          (refresh_sessions E refresh n ss).1,
        ) =
          rw (p, refresh_sessions) refl in
        subst (λ r. All (λ s. refresh n.resolved ≡ some s.cached) r.0) (sym e)
          (p, refresh_sessions-fresh n ss q)
  ]

  IsFresh-of_cache :
      (parents : List (Patches E)) (n : Node E Policies) (ss : List (Session Policies))
      → All (λ s. refresh (fresh E (n.patches ∷ parents)) ≡ some s.cached) ss
      → IsFresh (n.patches ∷ parents) (record (build_cache E parents n) { sessions = ss })
  unfolding build_cache get_txn_verify_settings get_txn_roll_settings lookup
  IsFresh-of_cache parents n ss h = record {
    settings =
        get_settings-fresh (n.patches ∷ parents)
          (record (build_cache E parents n) { sessions = ss }) refl;
    verify = refl;
    roll = refl;
    sessions = h;
  }

  mutual
    unfolding AllFresh clear_cache refresh_sessions

    pub clear_cache-AllFresh :
        (parents : List (Patches E)) (b : Behavior E Policies)
        → (clear_cache E refresh parents b).1 ≡ true
        → AllFresh parents (clear_cache E refresh parents b).0
    clear_cache-AllFresh parents (behavior n cs) h =
        let ss = refresh_sessions E refresh (build_cache E parents n) n.sessions in
        elim (Bool-cases ss.1) [
          | inl p ↦
              let q : (clear_children E refresh (n.patches ∷ parents) cs).1 ≡ true = rw p at h in
              rw p (
                IsFresh-of_cache parents n ss.0
                    (refresh_sessions-fresh (build_cache E parents n) n.sessions p),
                clear_children-AllFresh (n.patches ∷ parents) cs q,
              )
          | inr p ↦ absurd (let q : false ≡ true = rw p at h in cc q)
        ]

    clear_children-AllFresh :
        (parents : List (Patches E)) (cs : Children E Policies)
        → (clear_children E refresh parents cs).1 ≡ true
        → AllFreshIn parents (clear_children E refresh parents cs).0
    clear_children-AllFresh parents childless h = tt
    clear_children-AllFresh parents (child b cs) h =
        elim (Bool-cases (clear_cache E refresh parents b).1) [
          | inl p ↦
              let q : (clear_children E refresh parents cs).1 ≡ true = rw p at h in
              rw p (clear_cache-AllFresh parents b p, clear_children-AllFresh parents cs q)
          | inr p ↦ absurd (let q : false ≡ true = rw p at h in cc q)
        ]

  -- A reload that finishes leaves the behavior, all its descendants and the live sessions of each
  -- with exactly the settings that the new patches resolve to, whatever the caches held before.
  pub reload_patches-AllFresh :
      (parents : List (Patches E)) (patches : Patches E) (b : Behavior E Policies)
      → (reload_patches E refresh parents patches b).1 ≡ true
      → AllFresh parents (reload_patches E refresh parents patches b).0
  unfolding reload_patches
  reload_patches-AllFresh parents patches (behavior n cs) h =
      clear_cache-AllFresh parents (behavior (record n { patches = patches }) cs) h

  children_with-AllFreshIn :
      (parents : List (Patches E)) (cs : Children E Policies) (b : Behavior E Policies)
      → AllFreshIn parents cs
      → AllFresh parents b
      → AllFreshIn parents (children_with E cs b)
  unfolding AllFresh
  children_with-AllFreshIn parents childless b h k = (k, tt)
  children_with-AllFreshIn parents (child c cs) b h k =
      (h.0, children_with-AllFreshIn parents cs b h.1 k)

  -- Deriving a behavior from a tree whose caches are fresh leaves all of them fresh, the new
  -- child's too, and enters the child, and nothing else, in the registry under its name.
  pub derive_with_changes-AllFresh :
      (parents : List (Patches E)) (self : ℕ) (name : String) (c : Changes E)
      → (b : Behavior E Policies) (registry : Registry) → AllFresh parents b
      → AllFresh parents (derive_with_changes E parents self name c (b, registry)).0
        × ((m : String)
            → get_behavior m (derive_with_changes E parents self name c (b, registry)).1
              ≡ (if str_eq name m then some self else get_behavior m registry))
  unfolding AllFresh derive_with_changes new_behavior
  derive_with_changes-AllFresh parents self name c (behavior n cs) registry h = (
    (
      h.0,
      children_with-AllFreshIn (n.patches ∷ parents) cs
          (new_behavior E (n.patches ∷ parents) self name (patches_of E c)) h.1
          (
            IsFresh-of_cache (n.patches ∷ parents)
                (record {
                  id = self;
                  name = name;
                  patches = patches_of E c;
                  resolved = [];
                  resolved_txn = [];
                  sessions = [];
                })
                [] tt,
            tt,
          ),
    ),
    λ m. get_behavior-register self name m registry,
  )

  -- A session that holds the policies of its behavior's settings joins the reloads.
  register_session-AllFresh :
      (parents : List (Patches E)) (s : Session Policies) (b : Behavior E Policies)
      → AllFresh parents b
      → refresh (fresh E ((node E Policies b).patches ∷ parents)) ≡ some s.cached
      → AllFresh parents (register_session E s b)
  unfolding AllFresh register_session get_settings get_txn_verify_settings get_txn_roll_settings
  register_session-AllFresh parents s (behavior n cs) h k = (
    record {
      settings = h.0.settings;
      verify = h.0.verify;
      roll = h.0.roll;
      sessions = (k, h.0.sessions);
    },
    h.1,
  )
