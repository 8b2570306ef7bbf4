-- ===== src/Config/Topo.antt =====
-- The order in which aerospike_sdk/policy/sdk_config_loader.py applies the behaviors of a file.
-- The file's dictionary keeps each spec under its own name, so it is the list of its specs.
pub mod Perm
pub mod Turn
pub mod Laws
use aerospike_client_python.Base.{
  ℕ, zero, suc, String, str_eq, Bool, true, not, ◌||◌, Option, none, some, List, [], ◌∷◌, ◌++◌,
  length, any, if◌then◌else◌,
}

module _ (Patches : Type 0) where
  pub record BehaviorSpec : Type 0 where
    pub name : String
    pub parent : Option String
    pub patches : Patches

  -- `name in pending`
  abbrev pub is_in : String → List BehaviorSpec → Bool
  is_in name pending = any (λ spec. str_eq name spec.name) pending

  -- Whether a spec waits for no other pending one.
  abbrev pub is_ready : String → Option String → List BehaviorSpec → Bool
  is_ready name none pending = true
  is_ready name (some parent) pending = not (is_in parent pending) || str_eq parent name

  -- One turn of the outer loop, which visits `rest` and has left `kept` pending: the specs that it
  -- emits, and those that are pending after it.
  unfoldable pub turn :
      List BehaviorSpec → List BehaviorSpec → List BehaviorSpec × List BehaviorSpec
  turn kept [] = ([], kept)
  turn kept (spec ∷ rest) =
      let ready = is_ready spec.name spec.parent (kept ++ spec ∷ rest) in
      let visited = turn (if ready then kept else kept ++ spec ∷ []) rest in
      if ready then (spec ∷ visited.0, visited.1) else visited

  -- A turn that emits nothing ends the loop; one that does goes on with what is left.
  abbrev pub after_turn :
      List BehaviorSpec
      → List BehaviorSpec
      → List BehaviorSpec × List BehaviorSpec
      → List BehaviorSpec × List BehaviorSpec
  after_turn pending [] later = ([], pending)
  after_turn pending (spec ∷ specs) later = ((spec ∷ specs) ++ later.0, later.1)

  -- The outer loop: the specs that its turns emit, and those that a cycle leaves pending.
  unfoldable pub turns : ℕ → List BehaviorSpec → List BehaviorSpec × List BehaviorSpec
  unfolding turn
  turns zero pending = ([], pending)
  turns (suc fuel) pending =
      let turned = turn [] pending in after_turn pending turned.0 (turns fuel turned.1)

  -- A turn that goes on has emitted a spec, so as many turns as there are specs are enough.
  unfoldable pub topo_order : List BehaviorSpec → List BehaviorSpec
  unfolding turn turns
  topo_order specs = let ordered = turns (length specs) specs in ordered.0 ++ ordered.1
