-- ===== src/Policy/Registry.antt =====
-- aerospike_sdk/policy/behavior_registry.py: the behaviors by name, which hot reload and the
-- configuration look up. A behavior stands in it by its identity.
pub mod Laws
use aerospike_client_python.Base.{
  ℕ, String, Option, none, some, List, [], ◌∷◌, str_eq, if◌then◌else◌,
}

-- A dict from names to behaviors, in the order of insertion.
abbrev pub Registry : Type 0
Registry = List (String × ℕ)

unfoldable pub register : ℕ → String → Registry → Registry
register self name [] = (name, self) ∷ []
register self name ((m, other) ∷ registry) =
    let rest = register self name registry in
    if str_eq m name then (m, self) ∷ registry else (m, other) ∷ rest

unfoldable pub get_behavior : String → Registry → Option ℕ
get_behavior name [] = none
get_behavior name ((m, other) ∷ registry) =
    let rest = get_behavior name registry in if str_eq m name then some other else rest

-- `none` is the `RuntimeError` of a registry without the default behavior.
unfoldable pub get_behavior_or_default : String → Registry → Option ℕ
unfolding get_behavior
get_behavior_or_default name registry = elim (get_behavior name registry) [
  | some b ↦ some b
  | none ↦ get_behavior "DEFAULT" registry
]
