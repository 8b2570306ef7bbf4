-- ===== src/Policy/Registry/Laws.antt =====
-- Lookups in the registry of aerospike_sdk/policy/behavior_registry.py after a registration.
use aerospike_client_python.Base.{
  ℕ, ◌≡◌, refl, ◌∙◌, sym, ap, String, true, some, [], ◌∷◌, str_eq, eq_iff, eq_refl, Bool-cases, inl,
  inr, if◌then◌else◌, arith,
}
use aerospike_client_python.Policy.Registry.{
  Registry, register, get_behavior, get_behavior_or_default,
}

pub get_behavior-register :
    (self : ℕ) (name m : String) (registry : Registry)
    → get_behavior m (register self name registry)
      ≡ (if str_eq name m then some self else get_behavior m registry)
unfolding register get_behavior
get_behavior-register self name m [] = refl
get_behavior-register self name m ((k, other) ∷ registry) = elim (Bool-cases (str_eq k name)) [
  | inl p ↦ elim (Bool-cases (str_eq k m)) [
    | inl q ↦ rw (p, q, ap (λ x. str_eq x m) (sym ((eq_iff k name).0 p)) ∙ q) refl
    | inr q ↦ rw (p, q, ap (λ x. str_eq x m) (sym ((eq_iff k name).0 p)) ∙ q) refl
  ]
  | inr p ↦ elim (Bool-cases (str_eq k m)) [
    | inl q ↦ elim (Bool-cases (str_eq name m)) [
      | inl r ↦
          let same : str_eq k name ≡ true =
            (eq_iff k name).1 ((eq_iff k m).0 q ∙ sym ((eq_iff name m).0 r)) in
          absurd (cc (p, same))
      | inr r ↦ rw (p, q, r) refl
    ]
    | inr q ↦ rw (p, q, get_behavior-register self name m registry) refl
  ]
]

-- A lookup with the default as a fallback answers with the behavior last made under the name.
get_behavior_or_default-register :
    (self : ℕ) (name : String) (registry : Registry)
    → get_behavior_or_default name (register self name registry) ≡ some self
unfolding get_behavior_or_default
get_behavior_or_default-register self name registry =
    let found : get_behavior name (register self name registry) ≡ some self =
      get_behavior-register self name name registry ∙ rw (eq_refl name) refl in
    ground (arith, found)
