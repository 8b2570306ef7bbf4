-- ===== src/Dispatch/Apply/Laws.antt =====
-- What the keys of a batch of UDF calls are answered, over several consistency modes.
use aerospike_client_python.Base.{
  ℕ, true, or_elim, Option, none, some, List, [], ◌∷◌, ◌++◌, map, All, All-map, ◌≡◌, subst, refl,
  sym, ap, ap₂, ◌∙◌, ◌⊎◌, inl, inr,
}
use aerospike_client_python.Batch.Native.{Native}
use aerospike_client_python.Batch.Spec.{OperationSpec}
use aerospike_client_python.Policy.Settings.{Enums, Mode}
use aerospike_client_python.Dispatch.{Context, mode_for_namespace}
use aerospike_client_python.Dispatch.Policies.{
  BatchUdfPolicy, Caches, no_caches, level_or_fresh, fresh_level, cached_level,
  make_batch_udf_policy, batch_commit_level,
}
use aerospike_client_python.Dispatch.Policies.Laws.{
  IsCoherent, no_caches-IsCoherent, cached_level-LevelKept, level_or_fresh-IsCoherent,
}
use aerospike_client_python.Dispatch.Apply.{
  Groups, group_from, write_back, go_on, ApplyCall, apply_groups, own_mode, apply_by_mode,
}
use aerospike_client_python.Dispatch.Apply.Slots.{
  Partial, is_filled, blank-Partial, full, Right, answers, write_back-Partial, write_back_keeps,
  write_back_fills,
}
use aerospike_client_python.Dispatch.Apply.Groups.{
  Placed, Good, in_pairs, in_groups, all_groups-Good, all_groups_enter,
}

module _ (N : Native) (E : Enums) (c : Context N E) (spec : OperationSpec N) where
  -- The policy of a UDF call in a mode, made without any cache.
  abbrev pub udf_policy_of : Mode → Option (BatchUdfPolicy N E)
  unfolding make_batch_udf_policy
  udf_policy_of mode = (make_batch_udf_policy N E c spec (some mode) (no_caches N E)).0

  kept_level :
      (mode : Mode) (t : Caches N E)
      → IsCoherent N E c t
      → let level = level_or_fresh N E c mode (cached_level N E c mode t) t in
        (level.0 ≡ fresh_level N E c mode) × IsCoherent N E c level.1
  kept_level mode t h =
      level_or_fresh-IsCoherent N E c mode (cached_level N E c mode t) t h
        (cached_level-LevelKept N E c mode t h)

  make_batch_udf_policy-IsCoherent :
      (mode : Mode) (t : Caches N E)
      → IsCoherent N E c t
      → ((make_batch_udf_policy N E c spec (some mode) t).0 ≡ udf_policy_of mode)
        × IsCoherent N E c (make_batch_udf_policy N E c spec (some mode) t).1
  unfolding make_batch_udf_policy udf_policy_of batch_commit_level
  make_batch_udf_policy-IsCoherent mode t h =
      let p = kept_level mode t h in
      let q = kept_level mode (no_caches N E) (no_caches-IsCoherent N E c) in
      (rw (p.0, q.0) refl, p.1)

  module _ (Record Exception : Type 0) (answer : N.Key → Option (BatchUdfPolicy N E) → Record) where
    abbrev pub own_answer : N.Key → Record
    unfolding udf_policy_of own_mode
    own_answer key = answer key (udf_policy_of (mode_for_namespace N E c (N.namespace key)))

    answers_of :
        (mode_of : N.Key → Mode) (mode : Mode) (policy : Option (BatchUdfPolicy N E))
        (pairs : List (ℕ × N.Key))
        → policy ≡ udf_policy_of mode
        → All (Placed N mode_of spec.keys mode) pairs
        → map (λ key. answer key policy) (map (λ pair. pair.1) pairs)
          ≡ answers N (λ key. answer key (udf_policy_of (mode_of key))) pairs
    answers_of mode_of mode policy [] e h = refl
    answers_of mode_of mode policy (pair ∷ pairs) e h =
        ap₂ ◌∷◌ (ap (answer (pair.1)) (e ∙ ap udf_policy_of (sym (h.0.1))))
          (answers_of mode_of mode policy pairs e h.1)

    module _
        (batch_apply : List (ApplyCall N E c Record Exception)
          → ApplyCall N E c Record Exception
          → Exception ⊎ List Record) where
      abbrev mode_of : N.Key → Mode
      mode_of = own_mode N E c Record Exception batch_apply

      -- The client answers a row for each key of a call, in order.
      abbrev pub IsFaithful : Type 0
      IsFaithful =
          (calls : List (ApplyCall N E c Record Exception))
          (call : ApplyCall N E c Record Exception)
          → batch_apply calls call ≡ inr (map (λ key. answer key call.udf_policy) call.keys)

      abbrev Ends : Groups N → List (Option Record) → Exception ⊎ List (Option Record) → Type 0
      Ends groups merged o =
          (out : List (Option Record)) × (o ≡ inr out)
          × Partial N own_answer spec.keys out
          × ((i : ℕ)
              → (is_filled N own_answer i merged ≡ true)
                ⊎ (in_groups N mode_of spec.keys i groups ≡ true)
              → is_filled N own_answer i out ≡ true)

      apply_groups-Ends :
          IsFaithful
          → (groups : Groups N) (merged : List (Option Record))
            (calls : List (ApplyCall N E c Record Exception)) (t : Caches N E)
          → Good N mode_of spec.keys groups
          → Partial N own_answer spec.keys merged
          → IsCoherent N E c t
          → Ends groups merged
              (apply_groups N E c Record Exception batch_apply spec groups merged calls t).0
      unfolding apply_groups own_answer
      apply_groups-Ends law [] merged calls t good h k =
          (merged, refl, h, λ i f. elim f [ inl filled ↦ filled | inr e ↦ absurd (cc e) ])
      apply_groups-Ends law ((mode, pairs) ∷ groups) merged calls t good h k =
          let made = make_batch_udf_policy N E c spec (some mode) t in
          let policy = make_batch_udf_policy-IsCoherent mode t k in
          let call : ApplyCall N E c Record Exception = record {
            keys = map (λ pair. pair.1) pairs;
            udf_policy = made.0;
          } in
          let called = calls ++ call ∷ [] in
          let rows = answers N own_answer pairs in
          let right : Right N own_answer spec.keys pairs =
            All-map (λ pair placed. placed.0) pairs (good.0) in
          let answered : batch_apply calls call ≡ inr rows =
            law calls call ∙ ap inr (answers_of mode_of mode made.0 pairs policy.0 good.0) in
          let rest =
            apply_groups-Ends law groups (write_back N pairs rows merged) called made.1 good.1
              (write_back-Partial N own_answer spec.keys pairs merged right h) policy.1 in
          subst
            (λ o.
              Ends ((mode, pairs) ∷ groups) merged
                (go_on N E c Record Exception
                  (λ recs.
                    apply_groups N E c Record Exception batch_apply spec groups
                      (write_back N pairs recs merged) called made.1)
                  called made.1 o).0)
            (sym answered)
            (
              rest.0,
              rest.1,
              rest.2,
              λ i f. rest.3 i (elim f [
                | inl filled ↦ inl (write_back_keeps N own_answer i pairs merged filled)
                | inr e ↦
                    elim (or_elim (in_pairs N mode_of spec.keys i pairs)
                      (in_groups N mode_of spec.keys i groups) e) [
                        | inl here ↦
                            inl
                              (write_back_fills N own_answer spec.keys i pairs merged right h here)
                        | inr there ↦ inr there
                      ]
              ]),
            )

      -- Where the client answers a row for each key of a call, in order, every key of a segment of
      -- UDF calls gets, at its own index, the answer to a call with the policy of its own
      -- namespace's mode, however its keys are spread over the modes and whatever the caches have
      -- kept before.
      pub apply_by_mode-own_answer :
          (t : Caches N E)
          → IsFaithful
          → IsCoherent N E c t
          → (apply_by_mode N E c Record Exception batch_apply spec t).0
            ≡ inr (map (λ key. some (own_answer key)) spec.keys)
      unfolding apply_by_mode
      apply_by_mode-own_answer t law k =
          let ends =
            apply_groups-Ends law (group_from N mode_of 0 spec.keys [])
              (map (λ key. none) spec.keys) [] t (all_groups-Good N mode_of spec.keys)
              (blank-Partial N own_answer spec.keys) k in
          ends.1
          ∙ ap inr (
              full N own_answer spec.keys ends.0 ends.2
                (λ i key e. ends.3 i (inr (all_groups_enter N mode_of spec.keys i key e))))
