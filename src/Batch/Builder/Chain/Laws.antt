-- ===== src/Batch/Builder/Chain/Laws.antt =====
-- `_finalize_chain` of aerospike_sdk/query_shared.py, called again by each terminal of a builder.
use aerospike_client_python.Base.{
  ◌≡◌, refl, subst, ◌∙◌, ap, String, Bool, true, false, Option, none, some, List, [], ◌∷◌, any,
  arith, Bool-cases, inl, inr, is_none, ◌⊎◌, All, if◌then◌else◌,
}
use aerospike_client_python.Batch.Native.{Native}
use aerospike_client_python.Batch.Builder.{
  Error, value_error, op_not_applicable, Builder, Outcome, done, raised, ◌>>=◌,
}
use aerospike_client_python.Batch.Builder.Finalize.{
  resolve_default_filter_expression, resolve_where_filter_expression, append_spec, clear_segment,
  with_usage, finalize_current_spec,
}
use aerospike_client_python.Batch.Builder.Select.{
  changes, narrow_by, cut_to_limit, select_keys, resumes, write_message,
}
use aerospike_client_python.Batch.Builder.Chain.{
  set_defaults, apply_chain_defaults, has_defaults, wants_selection, default_step, select_step,
  finalize_chain,
}
use aerospike_client_python.Batch.Builder.Chain.Defaults.{
  IsDefaulted, with_defaults-IsDefaulted, with_defaults_id, selected-IsDefaulted,
}

module _ (N : Native) where
  -- No segment is open.
  record IsClosed (b : Builder N) : Type 0 where
    no_single_key : b.single_key ≡ none
    no_keys : b.keys ≡ none

  -- `default_where()` has been turned into a filter.
  abbrev IsResolved : Builder N → Type 0
  IsResolved b =
      (b.default_where_ael ≡ none)
      ⊎ ((f : N.FilterExpression) × (b.default_filter_expression ≡ some f))

  resolve_default_filter_expression_id :
      (b : Builder N) → IsResolved b → resolve_default_filter_expression N b ≡ done b
  unfolding resolve_default_filter_expression
  resolve_default_filter_expression_id b h = ground arith

  record HasDefaultsApplied (b : Builder N) : Type 0 where
    resolved : has_defaults N b ≡ true → IsResolved b
    defaulted :
        has_defaults N b ≡ true
        → All (IsDefaulted N b.default_filter_expression b.default_ttl_seconds) b.specs

  finalize_current_spec_id : (b : Builder N) → IsClosed b → finalize_current_spec N b ≡ done b
  unfolding finalize_current_spec
  finalize_current_spec_id b h = rw (h.no_single_key, h.no_keys)

  default_step_id : (b : Builder N) → HasDefaultsApplied b → default_step N b ≡ done b
  unfolding apply_chain_defaults
  default_step_id b h = elim (Bool-cases (has_defaults N b)) [
    | inl p ↦
        rw (p, resolve_default_filter_expression_id b (h.resolved p))
          (ap (λ l. done (record b { specs = l })) (with_defaults_id N _ _ b.specs (h.defaulted p)))
    | inr p ↦ rw p
  ]

  -- `P` holds of the builder that a call returns.
  abbrev Ensures : (Builder N → Type 0) → Outcome N → Type 0
  Ensures P (done b) = P b
  Ensures P (raised e b) = Unit

  >>=-Ensures :
      (P Q : Builder N → Type 0) (o : Outcome N) (f : Builder N → Outcome N)
      → Ensures P o
      → ((b : Builder N) → P b → Ensures Q (f b))
      → Ensures Q (o >>= f)
  >>=-Ensures P Q (done b) f h k = k b h
  >>=-Ensures P Q (raised e b) f h k = tt

  abbrev ClosedAnd : (Builder N → Type 0) → Builder N → Type 0
  ClosedAnd P b = IsClosed b × P b

  resolve_default_filter_expression-IsResolved :
      (b : Builder N)
      → IsClosed b
      → Ensures (ClosedAnd IsResolved) (resolve_default_filter_expression N b)
  unfolding resolve_default_filter_expression
  resolve_default_filter_expression-IsResolved b c =
      go b.default_where_ael b.default_filter_expression b.supports_server_compiled_ael refl refl
    where
      go :
          (w : Option String) (d : Option N.FilterExpression) (s : Bool)
          → b.default_where_ael ≡ w
          → b.default_filter_expression ≡ d
          → Ensures (ClosedAnd IsResolved) (elim w [
            | none ↦ done b
            | some ael ↦
                if is_none d
                then (if s
                    then done (record b {
                      default_filter_expression = some (N.from_server_compiled_ael ael);
                    })
                    else raised op_not_applicable b)
                else done b
          ])
      go none d s p q = (c, inl p)
      go (some ael) none true p q =
          (record { no_single_key = c.no_single_key; no_keys = c.no_keys }, inr (_, refl))
      go (some ael) none false p q = tt
      go (some ael) (some f) s p q = (c, inr (f, q))

  set_defaults-Applied :
      (b : Builder N)
      → ClosedAnd IsResolved b
      → Ensures (ClosedAnd HasDefaultsApplied) (set_defaults N b)
  set_defaults-Applied b (c, r) = (
    record { no_single_key = c.no_single_key; no_keys = c.no_keys },
    record {
      resolved = λ _. r;
      defaulted = λ _. with_defaults-IsDefaulted N _ b.default_ttl_seconds b.specs;
    },
  )

  any_outcome : (o : Outcome N) → Ensures (λ _. Unit) o
  any_outcome (done b) = tt
  any_outcome (raised e b) = tt

  -- The end of a segment closes it, whether its filter was resolved or refused.
  packaged :
      (b : Builder N) (ks : List N.Key)
      → Ensures IsClosed (resolve_where_filter_expression N (with_usage N b) >>= append_spec N ks)
  unfolding append_spec clear_segment
  packaged b ks =
      >>=-Ensures (λ _. Unit) IsClosed (resolve_where_filter_expression N (with_usage N b))
        (append_spec N ks) (any_outcome (resolve_where_filter_expression N (with_usage N b)))
        (λ b' _. record { no_single_key = refl; no_keys = refl })

  finalize_current_spec-Closed : (b : Builder N) → Ensures IsClosed (finalize_current_spec N b)
  unfolding finalize_current_spec
  finalize_current_spec-Closed b = go b.single_key b.keys refl refl
    where
      go :
          (k : Option N.Key) (ks : Option (List N.Key))
          → b.single_key ≡ k
          → b.keys ≡ ks
          → Ensures IsClosed
              (elim (elim k as (λ _. Option (List N.Key)) [
                | none ↦ ks
                | some key ↦ some (key ∷ [])
              ])
                as (λ _. Outcome N) [
                  | none ↦ done b
                  | some ks ↦
                      resolve_where_filter_expression N (with_usage N b) >>= append_spec N ks
                ])
      go none none p q = record { no_single_key = p; no_keys = q }
      go none (some ks) p q = packaged b ks
      go (some k) ks p q = packaged b (k ∷ [])

  default_step-Applied :
      (b : Builder N) → IsClosed b → Ensures (ClosedAnd HasDefaultsApplied) (default_step N b)
  unfolding apply_chain_defaults
  default_step-Applied b c = elim (Bool-cases (has_defaults N b)) [
    | inl p ↦ rw p (
        >>=-Ensures (ClosedAnd IsResolved) (ClosedAnd HasDefaultsApplied)
          (resolve_default_filter_expression N b) (set_defaults N)
          (resolve_default_filter_expression-IsResolved b c) set_defaults-Applied)
    | inr p ↦
        rw p (c, record { resolved = λ q. absurd (cc (p, q)); defaulted = λ q. absurd (cc (p, q)) })
  ]

  -- What every terminal leaves to the next: no open segment, the defaults in place, the keys
  -- selected.
  record IsFinalized (b : Builder N) : Type 0 where
    closed : IsClosed b
    applied : HasDefaultsApplied b
    selected : wants_selection N b ≡ false

  abbrev selected_by : Builder N → Builder N
  selected_by b = record b {
    keys_selected = true;
    specs = cut_to_limit N b.limit (narrow_by N b.partition_filter b.specs);
  }

  selected_by-IsFinalized :
      (b : Builder N) → ClosedAnd HasDefaultsApplied b → IsFinalized (selected_by b)
  selected_by-IsFinalized b (c, a) = record {
    closed = record { no_single_key = c.no_single_key; no_keys = c.no_keys };
    applied = record {
      resolved = a.resolved;
      defaulted =
          λ p. selected-IsDefaulted N _ _ b.limit b.partition_filter b.specs (a.defaulted p);
    };
    selected = ground arith;
  }

  select_keys-IsFinalized :
      (b : Builder N) → ClosedAnd HasDefaultsApplied b → Ensures IsFinalized (select_keys N b)
  unfolding select_keys
  select_keys-IsFinalized b h = elim (Bool-cases (any (changes N) b.specs)) [
    | inl p ↦ rw p tt
    | inr p ↦ elim (Bool-cases (resumes N b.partition_filter)) [
      | inl q ↦ rw (p, q) tt
      | inr q ↦ rw (p, q) (selected_by-IsFinalized b h)
    ]
  ]

  select_step-IsFinalized :
      (b : Builder N) → ClosedAnd HasDefaultsApplied b → Ensures IsFinalized (select_step N b)
  select_step-IsFinalized b h = elim (Bool-cases (wants_selection N b)) [
    | inl p ↦ rw p (select_keys-IsFinalized b h)
    | inr p ↦ rw p (record { closed = h.0; applied = h.1; selected = p })
  ]

  finalize_chain-IsFinalized : (b : Builder N) → Ensures IsFinalized (finalize_chain N b)
  unfolding finalize_chain
  finalize_chain-IsFinalized b =
      >>=-Ensures (ClosedAnd HasDefaultsApplied) IsFinalized
        (finalize_current_spec N b >>= default_step N) (select_step N)
        (>>=-Ensures IsClosed (ClosedAnd HasDefaultsApplied) (finalize_current_spec N b)
          (default_step N) (finalize_current_spec-Closed b) default_step-Applied)
        select_step-IsFinalized

  finalize_chain_id : (b : Builder N) → IsFinalized b → finalize_chain N b ≡ done b
  unfolding finalize_chain
  finalize_chain_id b h =
      ap (λ o. (o >>= default_step N) >>= select_step N) (finalize_current_spec_id b h.closed)
      ∙ ap (λ o. o >>= select_step N) (default_step_id b h.applied)
      ∙ rw (h.selected) refl

  -- A terminal that has finalized a chain changes nothing when it is called once more.
  pub finalize_chain_idempotent :
      (b : Builder N) {b' : Builder N}
      → finalize_chain N b ≡ done b'
      → finalize_chain N b' ≡ done b'
  finalize_chain_idempotent b h =
      finalize_chain_id _ (subst (λ o. Ensures IsFinalized o) h (finalize_chain-IsFinalized b))

  -- A chain with no open segment and no defaults that `_select_keys` refuses because it writes is
  -- dispatched in full by the terminal that is called after the refusal: no segment is narrowed or
  -- dropped.
  pub finalize_chain_after_refusal :
      (b : Builder N)
      → (b.single_key ≡ none) × (b.keys ≡ none)
      → has_defaults N b ≡ false
      → wants_selection N b ≡ true
      → any (changes N) b.specs ≡ true
      → (e : Error) × (b' : Builder N) × (finalize_chain N b ≡ raised e b')
        × (finalize_chain N b' ≡ done b')
        × (b'.specs ≡ b.specs)
  unfolding finalize_chain select_keys
  finalize_chain_after_refusal b (k, ks) nd w c =
      let c' : IsClosed b = record { no_single_key = k; no_keys = ks } in
      (
        value_error write_message,
        record b { keys_selected = true },
        ap (λ o. (o >>= default_step N) >>= select_step N) (finalize_current_spec_id b c')
            ∙ rw (nd, w, c) refl,
        finalize_chain_id (record b { keys_selected = true })
            (record {
              closed = record { no_single_key = k; no_keys = ks };
              applied = record {
                resolved = λ q. absurd (cc (nd, q));
                defaulted = λ q. absurd (cc (nd, q));
              };
              selected = ground arith;
            }),
        refl,
      )
