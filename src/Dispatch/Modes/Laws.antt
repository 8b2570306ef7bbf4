-- ===== src/Dispatch/Modes/Laws.antt =====
-- Which mode each key of a batch has once aerospike_sdk/aio/operations/query.py has resolved them.
use aerospike_client_python.Base.{
  String, str_eq, eq_iff, if◌then◌else◌, true, false, any, is_some, Bool-cases, or_intro, Option,
  none, some, Option-cases, List, [], ◌∷◌, All, All-map, ◌≡◌, ◌≢◌, refl, sym, ap, subst, ◌∙◌, ◌⊎◌,
  inl, inr,
}
use aerospike_client_python.Batch.Native.{Native}
use aerospike_client_python.Batch.Spec.{OperationSpec}
use aerospike_client_python.Policy.Settings.{Enums, Mode, ap as mode_ap, sc as mode_sc}
use aerospike_client_python.Dispatch.{Context, mode_for_namespace}
use aerospike_client_python.Dispatch.Modes.{
  resolve_extra, keep_modes, settle, then_batch, Modes, ask, says_sc, resolve_all, says_own_sc,
  escalated, ensure_namespace_mode, ensure_batch_namespace_modes, ensure_modes, in_force,
  resolved_batch_mode,
}
use aerospike_client_python.Dispatch.Modes.Extra.{
  Answered, any-says_sc, answer_cases, resolve_all-Answered, Covered, collected, collected-Covered,
}

module _ (N : Native) (Exception BasePolicies : Type 0) where
  module _ (E : Enums) (c : Context N E) where
    -- The mode of a key is that of its own namespace, and strong consistency reaches the policy of
    -- the whole batch.
    abbrev pub Own : Mode → Modes N Exception BasePolicies → N.Key → Type 0
    unfolding mode_for_namespace resolved_batch_mode
    Own mode s key =
        let ns = N.namespace key in
        let m = mode_for_namespace N E (in_force N Exception BasePolicies c mode s) ns in
        (ns ≡ s.namespace → m ≡ mode)
        × (ns ≢ s.namespace → ask N Exception BasePolicies s.resolver ns ≡ inr m)
        × (m ≡ mode_sc → resolved_batch_mode N Exception BasePolicies mode s ≡ mode_sc)

    own_name :
        (mode : Mode) (s : Modes N Exception BasePolicies) (key : N.Key)
        → str_eq (N.namespace key) s.namespace ≡ true
        → (mode ≡ mode_sc → s.batch_any_sc ≡ true)
        → Own mode s key
    unfolding Own mode_for_namespace
    own_name mode s key e any_sc =
        let ns = N.namespace key in
        let here : mode_for_namespace N E (in_force N Exception BasePolicies c mode s) ns ≡ mode =
          elim (Option-cases s.batch_namespace_modes) [
            | inl k ↦ rw k refl
            | inr k ↦ rw (k.1, e) refl
          ] in
        (
          λ same. here,
          λ other. absurd (other ((eq_iff ns s.namespace).0 e)),
          λ m. rw (any_sc (sym here ∙ m)) refl,
        )

    other_name :
        (mode : Mode) (s : Modes N Exception BasePolicies) (key : N.Key)
        (modes : List (String × Mode))
        → str_eq (N.namespace key) s.namespace ≡ false
        → s.batch_namespace_modes ≡ some modes
        → Answered (ask N Exception BasePolicies s.resolver) (N.namespace key) modes
        → (any says_sc modes ≡ true → s.batch_any_sc ≡ true)
        → Own mode s key
    unfolding Own mode_for_namespace
    other_name mode s key modes e k (m, answered, held) any_sc =
        let ns = N.namespace key in
        let there : mode_for_namespace N E (in_force N Exception BasePolicies c mode s) ns ≡ m =
          rw (k, e, held) refl in
        (
          λ same. absurd (cc ((eq_iff ns s.namespace).1 same, e)),
          λ other. answered ∙ ap inr (sym there),
          λ is. rw (any_sc (any-says_sc ns modes (held ∙ ap some (sym there ∙ is)))) refl,
        )

    -- What the second call leaves.
    abbrev Settled : Mode → List (OperationSpec N) → Modes N Exception BasePolicies → Type 0
    Settled mode specs t =
        (t.namespace_mode ≡ some mode) × All (λ spec. All (Own mode t) spec.keys) specs

    resolve_extra-Settled :
        (mode : Mode) (specs : List (OperationSpec N)) (extra : List String)
        (s t : Modes N Exception BasePolicies)
        → s.namespace_mode ≡ some mode
        → (mode ≡ mode_sc → s.batch_any_sc ≡ true)
        → All (λ spec. All (Covered N Exception BasePolicies s.namespace extra) spec.keys) specs
        → resolve_extra N Exception BasePolicies extra s ≡ (none, t)
        → Settled mode specs t
    resolve_extra-Settled mode specs [] s t e any_sc covered h =
        subst (Settled mode specs) (ap (λ r. r.1) h) (
          e,
          All-map
              (λ spec keys.
                All-map
                  (λ key k. elim k [
                    | inl own ↦ own_name mode s key own any_sc
                    | inr held ↦ absurd (cc held)
                  ])
                  spec.keys keys)
              specs covered,
        )
    resolve_extra-Settled mode specs (x ∷ extra) s t e any_sc covered h =
        let resolve = ask N Exception BasePolicies s.resolver in
        let kept = keep_modes N Exception BasePolicies in
        elim (answer_cases (resolve_all N Exception BasePolicies resolve (x ∷ extra) [])) [
          | inl (exc, raised) ↦ absurd (cc (ap (λ o. kept o s) (sym raised) ∙ h))
          | inr (modes, answered) ↦
              let u = (kept (inr modes) s).1 in
              let sc_of : any says_sc modes ≡ true → u.batch_any_sc ≡ true =
                λ k. or_intro s.batch_any_sc (any says_sc modes) (inr k) in
              let own_of : (key : N.Key)
                  → Covered N Exception BasePolicies s.namespace (x ∷ extra) key
                  → Own mode u key =
                λ key k. elim (Bool-cases (str_eq (N.namespace key) s.namespace)) [
                  | inl own ↦
                      own_name mode u key own
                        (λ is. or_intro s.batch_any_sc (any says_sc modes) (inl (any_sc is)))
                  | inr other ↦
                      other_name mode u key modes other refl
                        (resolve_all-Answered N Exception BasePolicies resolve (N.namespace key)
                          (x ∷ extra) [] modes answered
                          (elim k [ inl own ↦ absurd (cc (own, other)) | inr held ↦ inl held ]))
                        sc_of
                ] in
              subst (Settled mode specs) (ap (λ r. r.1) (ap (λ o. kept o s) (sym answered) ∙ h))
                (e, All-map (λ spec keys. All-map own_of spec.keys keys) specs covered)
        ]

    ensure_batch_namespace_modes-Settled :
        (mode : Mode) (specs : List (OperationSpec N)) (s t : Modes N Exception BasePolicies)
        → s.namespace_mode ≡ some mode
        → ensure_batch_namespace_modes N Exception BasePolicies specs s ≡ (none, t)
        → Settled mode specs t
    unfolding ensure_batch_namespace_modes
    ensure_batch_namespace_modes-Settled mode specs s t e h =
        resolve_extra-Settled mode specs (collected N Exception BasePolicies s.namespace specs [])
          (escalated N Exception BasePolicies s) t e
          (λ is.
            or_intro (says_own_sc N Exception BasePolicies s.namespace_mode) s.batch_any_sc
              (inl (ap (says_own_sc N Exception BasePolicies) (e ∙ ap some is))))
          (collected-Covered N Exception BasePolicies s.namespace specs []) h

    abbrev entered_batch :
        List (OperationSpec N)
        → Exception ⊎ Mode
        → Modes N Exception BasePolicies
        → Option Exception × Modes N Exception BasePolicies
    entered_batch specs o s =
        then_batch N Exception BasePolicies specs (settle N Exception BasePolicies o s)

    entered_batch-Settled :
        (mode : Mode) (specs : List (OperationSpec N)) (s t : Modes N Exception BasePolicies)
        → entered_batch specs (inr mode) s ≡ (none, t)
        → Settled mode specs t
    unfolding entered_batch ensure_batch_namespace_modes then_batch
    entered_batch-Settled mode_ap specs s t h =
        ensure_batch_namespace_modes-Settled mode_ap specs
          (settle N Exception BasePolicies (inr mode_ap) s).1 t refl h
    entered_batch-Settled mode_sc specs s t h =
        ensure_batch_namespace_modes-Settled mode_sc specs
          (settle N Exception BasePolicies (inr mode_sc) s).1 t refl h

    -- Once `execute` has resolved the modes and no question to the cluster has raised, the builder's
    -- mode is the one it had, or else the answer for its namespace; every key of the chain has the
    -- mode of its own namespace, which is the builder's or the answer for that name; and the policy
    -- of the whole batch is one of strong consistency as soon as a key's mode is.
    pub ensure_modes-Own :
        (specs : List (OperationSpec N)) (s t : Modes N Exception BasePolicies)
        → ensure_modes N Exception BasePolicies specs s ≡ (none, t)
        → (mode : Mode) × (t.namespace_mode ≡ some mode)
          × ((s.namespace_mode ≡ some mode)
              ⊎ (ask N Exception BasePolicies s.resolver s.namespace ≡ inr mode))
          × All (λ spec. All (Own mode t) spec.keys) specs
    unfolding ensure_modes ensure_namespace_mode
    ensure_modes-Own specs s t h =
        let resolve = ask N Exception BasePolicies s.resolver in
        let begun : Option Mode → Option Exception × Modes N Exception BasePolicies = λ o.
          then_batch N Exception BasePolicies specs (
            if is_some o
            then (none, s)
            else settle N Exception BasePolicies (resolve s.namespace) s) in
        elim (Option-cases s.namespace_mode) [
          | inl unset ↦
              let started = ap begun (sym unset) ∙ h in
              elim (answer_cases (resolve s.namespace)) [
                | inl (exc, raised) ↦
                    absurd (cc (ap (λ o. entered_batch specs o s) (sym raised) ∙ started))
                | inr (mode, answered) ↦
                    let b =
                      entered_batch-Settled mode specs s t
                        (ap (λ o. entered_batch specs o s) (sym answered) ∙ started) in
                    (mode, b.0, inr answered, b.1)
              ]
          | inr (mode, e) ↦
              let b =
                ensure_batch_namespace_modes-Settled mode specs s t e (ap begun (sym e) ∙ h) in
              (mode, b.0, inl e, b.1)
        ]
