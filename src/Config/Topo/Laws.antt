-- ===== src/Config/Topo/Laws.antt =====
-- The order of the specs that `_topo_order` of aerospike_sdk/policy/sdk_config_loader.py returns.
use mathlib.Core.List.{Permᴰ}
use aerospike_client_python.Base.{
  ℕ, zero, suc, ◌<◌, String, str_eq, eq_iff, eq_refl, Bool, true, false, not, ◌||◌, some, List, [],
  ◌∷◌, ◌++◌, length, any, All, ◌≡◌, ◌≢◌, refl, sym, ap, subst, ◌∙◌, ◌⊎◌, inl, inr, Bool-cases,
  Option-cases, append-nil, or_false, arith,
}
use aerospike_client_python.Config.Topo.{BehaviorSpec, is_in, is_ready, turns, topo_order}
use aerospike_client_python.Config.Topo.Perm.{All-perm}
use aerospike_client_python.Config.Topo.Turn.{
  Specs, ready, Ordered, Waiting, IsSplit, turns-IsSplit,
}

any-found :
    {A : Type 0} (f : A → Bool) (P : A → Type 0) (xs : List A)
    → any f xs ≡ true
    → All P xs
    → (x : A) × (f x ≡ true) × P x
any-found f P [] h all = absurd (cc h)
any-found f P (x ∷ xs) h all = elim (Bool-cases (f x)) [
  | inl e ↦ (x, e, all.0)
  | inr e ↦ any-found f P xs (sym (ap (λ b. b || any f xs) e) ∙ h) all.1
]

All-and :
    {A : Type 0} (P Q : A → Type 0) (xs : List A) → All P xs → All Q xs → All (λ x. P x × Q x) xs
All-and P Q [] p q = tt
All-and P Q (x ∷ xs) p q = ((p.0, q.0), All-and P Q xs p.1 q.1)

All-append_right : {A : Type 0} (P : A → Type 0) (xs ys : List A) → All P (xs ++ ys) → All P ys
All-append_right P [] ys h = h
All-append_right P (x ∷ xs) ys h = All-append_right P xs ys h.1

unnegate : (b : Bool) → not b ≡ false → b ≡ true
unnegate true h = refl
unnegate false h = absurd (cc h)

settled : (s i : Bool) → (not (s || i) || s) ≡ true → s ≡ false → i ≡ false
settled true i h k = absurd (cc k)
settled false true h k = absurd (cc h)
settled false false h k = refl

different : (a b : String) → str_eq a b ≡ false → a ≢ b
different a b h e = cc (sym ((eq_iff a b).1 e) ∙ h)

module _ (Patches : Type 0) where
  -- A spec is applied before any of `specs` and of `after` that is its parent only where it is
  -- its own parent.
  abbrev pub ParentsFirst : Specs Patches → Specs Patches → Type 0
  ParentsFirst [] after = Unit
  ParentsFirst (spec ∷ later) after =
      ((parent : String)
        → spec.parent ≡ some parent
        → (parent ≡ spec.name) ⊎ (is_in Patches parent (later ++ after) ≡ false))
      × ParentsFirst later after

  -- The parent of a spec is another one of `specs`.
  abbrev pub HasParentIn : Specs Patches → BehaviorSpec Patches → Type 0
  HasParentIn specs spec =
      (parent : String) × (spec.parent ≡ some parent)
      × (is_in Patches parent specs ≡ true)
      × (parent ≢ spec.name)

  -- A parent has a smaller rank, unless a spec is its own parent.
  abbrev pub Below : (String → ℕ) → BehaviorSpec Patches → Type 0
  Below rank spec =
      (parent : String)
      → spec.parent ≡ some parent
      → parent ≢ spec.name
      → rank parent < rank spec.name

  -- A spec that is not ready waits for its parent.
  waits_for :
      (spec : BehaviorSpec Patches) (pending : Specs Patches)
      → ready Patches spec pending ≡ false
      → HasParentIn pending spec
  waits_for spec pending h = elim (Option-cases spec.parent) [
    | inl e ↦ absurd (cc (h, ap (λ p. is_ready Patches spec.name p pending) e))
    | inr e ↦
        let both =
          or_false (not (is_in Patches (e.0) pending)) (str_eq (e.0) spec.name)
            (sym (ap (λ p. is_ready Patches spec.name p pending) (e.1)) ∙ h) in
        (e.0, e.1, unnegate (is_in Patches (e.0) pending) both.0, different (e.0) spec.name both.1)
  ]

  Waiting-HasParentIn :
      (pending specs : Specs Patches)
      → Waiting Patches pending specs
      → All (HasParentIn pending) specs
  Waiting-HasParentIn pending [] h = tt
  Waiting-HasParentIn pending (spec ∷ specs) h =
      (waits_for spec pending h.0, Waiting-HasParentIn pending specs h.1)

  -- Specs that all have a parent among them do not descend.
  descent :
      (rank : String → ℕ) (pending : Specs Patches)
      → All (HasParentIn pending) pending
      → All (Below rank) pending
      → (n : ℕ) (name : String) → rank name < n
      → is_in Patches name pending ≡ true
      → ⊥
  descent rank pending has below zero name h i = omega (arith, h)
  descent rank pending has below (suc n) name h i =
      let found =
        any-found (λ spec. str_eq name spec.name)
          (λ spec. HasParentIn pending spec × Below rank spec) pending i
          (All-and (HasParentIn pending) (Below rank) pending has below) in
      let spec = found.0 in
      let parent = found.2.0.0 in
      let named : rank name ≡ rank spec.name = ap rank ((eq_iff name spec.name).0 found.1) in
      let lower : rank parent < rank spec.name = found.2.1 parent found.2.0.1 found.2.0.3 in
      descent rank pending has below n parent (omega (arith, h, named, lower)) found.2.0.2

  none_left :
      (rank : String → ℕ) (pending : Specs Patches)
      → All (HasParentIn pending) pending
      → All (Below rank) pending
      → pending ≡ []
  none_left rank [] has below = refl
  none_left rank (spec ∷ specs) has below = absurd (
      descent rank (spec ∷ specs) has below (suc (rank spec.name)) spec.name (omega arith)
        (ap (λ b. b || is_in Patches spec.name specs) (eq_refl spec.name)))

  ready_first :
      (spec : BehaviorSpec Patches) (rest : Specs Patches)
      → ready Patches spec (spec ∷ rest) ≡ true
      → (parent : String) → spec.parent ≡ some parent
      → (parent ≡ spec.name) ⊎ (is_in Patches parent rest ≡ false)
  ready_first spec rest h parent e = elim (Bool-cases (str_eq parent spec.name)) [
    | inl s ↦ inl ((eq_iff parent spec.name).0 s)
    | inr s ↦ inr (
        settled (str_eq parent spec.name) (is_in Patches parent rest)
          (sym (ap (λ p. is_ready Patches spec.name p (spec ∷ rest)) e) ∙ h) s)
  ]

  Ordered-ParentsFirst :
      (specs after : Specs Patches) → Ordered Patches specs after → ParentsFirst specs after
  Ordered-ParentsFirst [] after h = tt
  Ordered-ParentsFirst (spec ∷ later) after h =
      (ready_first spec (later ++ after) h.0, Ordered-ParentsFirst later after h.1)

  turns-IsSplit_whole :
      (specs : Specs Patches) → IsSplit Patches specs (turns Patches (length specs) specs)
  turns-IsSplit_whole specs = turns-IsSplit Patches (length specs) specs (omega arith)

  -- With or without a cycle, every spec of the file is applied, as often as it is there: first
  -- specs none of which comes before its parent, then specs whose parents are all among them.
  pub topo_order_cycle :
      (specs : Specs Patches)
      → (ordered : Specs Patches) × (stuck : Specs Patches) × (topo_order Patches specs
          ≡ ordered ++ stuck)
        × Permᴰ (topo_order Patches specs) specs
        × ParentsFirst ordered stuck
        × All (HasParentIn stuck) stuck
  unfolding topo_order
  topo_order_cycle specs =
      let r = turns Patches (length specs) specs in
      let split = turns-IsSplit_whole specs in
      (
        r.0,
        r.1,
        refl,
        split.0,
        Ordered-ParentsFirst r.0 r.1 split.1,
        Waiting-HasParentIn r.1 r.1 split.2,
      )

  -- Where parents have smaller ranks than their children, so that there is no cycle but of a spec
  -- that is its own parent, every spec is applied, as often as it is there, and no spec before
  -- its parent.
  pub topo_order_acyclic :
      (rank : String → ℕ) (specs : Specs Patches)
      → All (Below rank) specs
      → Permᴰ (topo_order Patches specs) specs × ParentsFirst (topo_order Patches specs) []
  topo_order_acyclic rank specs below =
      let c = topo_order_cycle specs in
      let ordered = c.0 in
      let stuck = c.1 in
      let none_stuck : stuck ≡ [] = none_left rank stuck c.5 (
        All-append_right (Below rank) ordered stuck
          (subst (All (Below rank)) c.2 (All-perm (Below rank) c.3 below))) in
      let whole : topo_order Patches specs ≡ ordered =
        c.2 ∙ ap (λ s. ordered ++ s) none_stuck ∙ append-nil ordered in
      (
        c.3,
        subst (λ s. ParentsFirst s []) (sym whole) (subst (ParentsFirst ordered) none_stuck c.4),
      )
