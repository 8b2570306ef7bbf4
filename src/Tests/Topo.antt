-- ===== src/Tests/Topo.antt =====
-- A file of behaviors in which a child stands before its parent, and one with a cycle of two.
use mathlib.Core.List.{Permᴰ}
use aerospike_client_python.Base.{
  ℕ, ◌<◌, String, str_eq, Option, none, some, List, [], ◌∷◌, All, ◌≡◌, refl, ap, subst,
  if◌then◌else◌, arith,
}
use aerospike_client_python.Config.Topo.{BehaviorSpec, topo_order}
use aerospike_client_python.Config.Topo.Laws.{ParentsFirst, Below, topo_order_acyclic}

abbrev behavior : String → Option String → BehaviorSpec ℕ
behavior name parent = record { name = name; parent = parent; patches = 0 }

abbrev family : List (BehaviorSpec ℕ)
family = behavior "batch" (some "fast") ∷ behavior "fast" none ∷ []

abbrev with_cycle : List (BehaviorSpec ℕ)
with_cycle = behavior "left" (some "right") ∷ behavior "right" (some "left") ∷ family

topo_order-family : topo_order ℕ family ≡ behavior "fast" none ∷ behavior "batch" (some "fast") ∷ []
unfolding topo_order
topo_order-family = refl

topo_order-with_cycle :
    topo_order ℕ with_cycle
    ≡ behavior "fast" none
      ∷ behavior "batch" (some "fast")
      ∷ behavior "left" (some "right")
      ∷ behavior "right" (some "left")
      ∷ []
unfolding topo_order
topo_order-with_cycle = refl

abbrev rank : String → ℕ
rank name = if str_eq name "batch" then 1 else 0

or_else : String → Option String → String
or_else other none = other
or_else other (some name) = name

family-Below : All (Below ℕ rank) family
unfolding or_else
family-Below = (
  λ parent e different. subst (λ name. rank name < 1) (ap (or_else "fast") e) (omega arith),
  (λ parent e different. absurd (cc e), tt),
)

topo_order_acyclic_example :
    Permᴰ (topo_order ℕ family) family × ParentsFirst ℕ (topo_order ℕ family) []
topo_order_acyclic_example = topo_order_acyclic ℕ rank family family-Below
