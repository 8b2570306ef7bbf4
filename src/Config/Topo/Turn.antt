-- ===== src/Config/Topo/Turn.antt =====
-- What one turn and all turns of the loop of `_topo_order` in
-- aerospike_sdk/policy/sdk_config_loader.py emit and leave pending.
use mathlib.Core.List.{Permᴰ}
use aerospike_client_python.Base.{
  ℕ, zero, suc, ◌+◌, ◌≤◌, String, str_eq, Bool, true, false, Option, none, some, List, [], ◌∷◌,
  ◌++◌, length, All, ◌≡◌, refl, sym, ap, subst, ◌∙◌, inl, inr, Bool-cases, append_assoc, append-nil,
  length-append, arith,
}
use aerospike_client_python.Config.Topo.{BehaviorSpec, is_ready, turn, after_turn, turns}
use aerospike_client_python.Config.Topo.Perm.{
  perm_refl, perm_symm, perm_front, perm_after, any-perm, length-perm,
}

module _ (Patches : Type 0) where
  abbrev pub Specs : Type 0
  Specs = List (BehaviorSpec Patches)

  -- Whether a spec is ready while `pending` are.
  abbrev pub ready : BehaviorSpec Patches → Specs → Bool
  ready spec pending = is_ready Patches spec.name spec.parent pending

  -- Each of `specs` is ready when it and what follows it, with `after`, are pending.
  abbrev pub Ordered : Specs → Specs → Type 0
  Ordered [] after = Unit
  Ordered (spec ∷ later) after = (ready spec (spec ∷ later ++ after) ≡ true) × Ordered later after

  -- Each of `specs` waits for one of `pending`.
  abbrev pub Waiting : Specs → Specs → Type 0
  Waiting pending specs = All (λ spec. ready spec pending ≡ false) specs

  is_ready-perm :
      (name : String) (parent : Option String) {xs ys : Specs}
      → Permᴰ xs ys
      → is_ready Patches name parent xs ≡ is_ready Patches name parent ys
  is_ready-perm name none p = refl
  is_ready-perm name (some parent) p = rw (any-perm (λ spec. str_eq parent spec.name) p) refl

  Ordered-perm : (specs : Specs) {xs ys : Specs} → Permᴰ xs ys → Ordered specs xs → Ordered specs ys
  Ordered-perm [] p h = tt
  Ordered-perm (spec ∷ specs) p h = (
    sym (is_ready-perm spec.name spec.parent (perm_after (spec ∷ specs) p)) ∙ h.0,
    Ordered-perm specs p h.1,
  )

  Ordered-append :
      (xs ys after : Specs) → Ordered xs (ys ++ after) → Ordered ys after → Ordered (xs ++ ys) after
  Ordered-append [] ys after h k = k
  Ordered-append (x ∷ xs) ys after h k = (
    ap (λ specs. ready x (x ∷ specs)) (append_assoc xs (ys) after) ∙ h.0,
    Ordered-append xs ys after h.1 k,
  )

  module _ (kept : Specs) (spec : BehaviorSpec Patches) (rest : Specs) where
    turn-ready :
        ready spec (kept ++ spec ∷ rest) ≡ true
        → turn Patches kept (spec ∷ rest)
          ≡ (spec ∷ (turn Patches kept rest).0, (turn Patches kept rest).1)
    unfolding turn
    turn-ready h = rw h refl

    turn-waits :
        ready spec (kept ++ spec ∷ rest) ≡ false
        → turn Patches kept (spec ∷ rest) ≡ turn Patches (kept ++ spec ∷ []) rest
    unfolding turn
    turn-waits h = rw h refl

    moved : (kept ++ spec ∷ []) ++ rest ≡ kept ++ spec ∷ rest
    moved = append_assoc kept (spec ∷ []) rest

  turn-perm :
      (kept rest : Specs)
      → Permᴰ ((turn Patches kept rest).0 ++ (turn Patches kept rest).1) (kept ++ rest)
  unfolding turn
  turn-perm kept [] = subst (Permᴰ kept) (sym (append-nil kept)) (perm_refl kept)
  turn-perm kept (spec ∷ rest) = elim (Bool-cases (ready spec (kept ++ spec ∷ rest))) [
    | inl h ↦
        subst (λ r. Permᴰ (r.0 ++ r.1) (kept ++ spec ∷ rest)) (sym (turn-ready kept spec rest h))
          (Permᴰ.trans (Permᴰ.cons refl (turn-perm kept rest)) (perm_front spec kept rest))
    | inr h ↦
        subst (λ r. Permᴰ (r.0 ++ r.1) (kept ++ spec ∷ rest)) (sym (turn-waits kept spec rest h))
          (subst (Permᴰ _) (moved kept spec rest) (turn-perm (kept ++ spec ∷ []) rest))
  ]

  turn-Ordered : (kept rest : Specs) → Ordered (turn Patches kept rest).0 (turn Patches kept rest).1
  unfolding turn
  turn-Ordered kept [] = tt
  turn-Ordered kept (spec ∷ rest) = elim (Bool-cases (ready spec (kept ++ spec ∷ rest))) [
    | inl h ↦
        subst (λ r. Ordered r.0 r.1) (sym (turn-ready kept spec rest h))
          (
            is_ready-perm spec.name spec.parent
                  (Permᴰ.trans (Permᴰ.cons refl (turn-perm kept rest)) (perm_front spec kept rest))
                ∙ h,
            turn-Ordered kept rest,
          )
    | inr h ↦
        subst (λ r. Ordered r.0 r.1) (sym (turn-waits kept spec rest h))
          (turn-Ordered (kept ++ spec ∷ []) rest)
  ]

  -- A turn that emits nothing has found every spec that it visits waiting.
  turn-Waiting : (kept rest : Specs) → (turn Patches kept rest).0 ≡ [] → Waiting (kept ++ rest) rest
  unfolding turn
  turn-Waiting kept [] e = tt
  turn-Waiting kept (spec ∷ rest) e = elim (Bool-cases (ready spec (kept ++ spec ∷ rest))) [
    | inl h ↦ absurd (cc (ap (λ r. r.0) (sym (turn-ready kept spec rest h)) ∙ e))
    | inr h ↦ (
      h,
      subst (λ pending. Waiting pending rest) (moved kept spec rest)
          (turn-Waiting (kept ++ spec ∷ []) rest
            (ap (λ r. r.0) (sym (turn-waits kept spec rest h)) ∙ e)),
    )
  ]

  length-turn :
      (pending : Specs)
      → length (turn Patches [] pending).0 + length (turn Patches [] pending).1 ≡ length pending
  length-turn pending =
      sym (length-append (turn Patches [] pending).0 (turn Patches [] pending).1)
      ∙ length-perm (turn-perm [] pending)

  -- The specs that turns emit are ordered, those that they leave wait for each other, and
  -- together they are the pending ones.
  abbrev pub IsSplit : Specs → Specs × Specs → Type 0
  IsSplit pending r = Permᴰ (r.0 ++ r.1) pending × Ordered r.0 r.1 × Waiting r.1 r.1

  module _ (fuel : ℕ) (pending left : Specs) where
    turns_stuck :
        turn Patches [] pending ≡ ([], left) → turns Patches (suc fuel) pending ≡ ([], pending)
    unfolding turns
    turns_stuck e = ap (λ r. after_turn Patches pending r.0 (turns Patches fuel r.1)) e

    turns_on :
        (spec : BehaviorSpec Patches) (specs : Specs)
        → turn Patches [] pending ≡ (spec ∷ specs, left)
        → turns Patches (suc fuel) pending
          ≡ ((spec ∷ specs) ++ (turns Patches fuel left).0, (turns Patches fuel left).1)
    unfolding turns
    turns_on spec specs e = ap (λ r. after_turn Patches pending r.0 (turns Patches fuel r.1)) e

  -- What a turn emits, and the split of what it leaves, make a split of what was pending.
  IsSplit-append :
      (pending emitted left : Specs) (r : Specs × Specs)
      → Permᴰ (emitted ++ left) pending
      → Ordered emitted left
      → IsSplit left r
      → IsSplit pending (emitted ++ r.0, r.1)
  IsSplit-append pending emitted left r p ordered split = (
    subst (λ specs. Permᴰ specs pending) (sym (append_assoc emitted (r.0) (r.1)))
        (Permᴰ.trans (perm_after emitted split.0) p),
    Ordered-append emitted r.0 r.1 (Ordered-perm emitted (perm_symm split.0) ordered) split.1,
    split.2,
  )

  turns-IsSplit_from :
      (fuel : ℕ) (pending emitted left : Specs)
      → turn Patches [] pending ≡ (emitted, left)
      → length pending ≤ suc fuel
      → ((specs : Specs) → length specs ≤ fuel → IsSplit specs (turns Patches fuel specs))
      → IsSplit pending (turns Patches (suc fuel) pending)
  turns-IsSplit_from fuel pending [] left e h rec =
      subst (IsSplit pending) (sym (turns_stuck fuel pending left e))
        (perm_refl pending, tt, turn-Waiting [] pending (ap (λ r. r.0) e))
  turns-IsSplit_from fuel pending (spec ∷ specs) left e h rec =
      let size : length pending ≡ length (spec ∷ specs) + length left =
        sym (length-turn pending) ∙ ap (λ r. length r.0 + length r.1) e in
      subst (IsSplit pending) (sym (turns_on fuel pending left spec specs e)) (
        IsSplit-append pending (spec ∷ specs) left (turns Patches fuel left)
          (subst (λ r. Permᴰ (r.0 ++ r.1) pending) e (turn-perm [] pending))
          (subst (λ r. Ordered r.0 r.1) e (turn-Ordered [] pending))
          (rec left (omega (arith, h, size))))

  pub turns-IsSplit :
      (fuel : ℕ) (pending : Specs)
      → length pending ≤ fuel
      → IsSplit pending (turns Patches fuel pending)
  unfolding turns
  turns-IsSplit zero [] h = (Permᴰ.nil, tt, tt)
  turns-IsSplit zero (spec ∷ specs) h = absurd (omega (arith, h))
  turns-IsSplit (suc fuel) pending h =
      turns-IsSplit_from fuel pending _ _ refl h (turns-IsSplit fuel)
