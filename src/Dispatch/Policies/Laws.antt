-- ===== src/Dispatch/Policies/Laws.antt =====
-- What the caches of row policies in aerospike_sdk/query_shared.py answer.
use aerospike_client_python.Base.{
  ℤ, String, str_eq, eq_iff, Bool, true, false, ◌&&◌, not, is_none, Bool-cases, Option, none, some,
  List, [], ◌∷◌, All, ◌≡◌, refl, sym, ap, ◌∙◌, inl, inr,
}
use aerospike_client_python.Base.Dict.{get}
use aerospike_client_python.Config.Equality.{
  same_int, same_option, IsSound, same_option-IsSound, same_int-IsSound,
}
use aerospike_client_python.Batch.Native.{Native}
use aerospike_client_python.Batch.Spec.{OperationSpec}
use aerospike_client_python.Policy.Settings.{Enums, Mode, ap as mode_ap, sc as mode_sc}
use aerospike_client_python.Policy.Behavior.{mode_eq}
use aerospike_client_python.Dispatch.{Context, row_mode}
use aerospike_client_python.Dispatch.Policies.{
  BatchWritePolicy, CacheKey, same_key, Caches, no_caches, fresh_level, cached_level, keep_level,
  level_or_fresh, batch_commit_level, write_policy_with, build_batch_write_policy, is_plain,
  plain_or_build, make_batch_write_policy_mixed,
}

and_true : (a b : Bool) → (a && b) ≡ true → (a ≡ true) × (b ≡ true)
and_true true b h = (refl, h)
and_true false b h = absurd (cc h)

none_of : {A : Type 0} (o : Option A) → is_none o ≡ true → o ≡ none
none_of none h = refl
none_of (some a) h = absurd (cc h)

not-true : (b : Bool) → not b ≡ true → b ≡ false
not-true false h = refl
not-true true h = absurd (cc h)

pub mode_eq-IsSound : IsSound mode_eq
mode_eq-IsSound mode_ap mode_ap h = refl
mode_eq-IsSound mode_ap mode_sc h = absurd (cc h)
mode_eq-IsSound mode_sc mode_ap h = absurd (cc h)
mode_eq-IsSound mode_sc mode_sc h = refl

module _ (N : Native) (E : Enums) where
  same_key-IsSound : IsSound (same_key N E)
  same_key-IsSound (v, t, m) (v', t', m') h =
      let p =
        and_true (same_option str_eq v v') (same_option same_int t t' && same_option mode_eq m m')
          h in
      let q = and_true (same_option same_int t t') (same_option mode_eq m m') p.1 in
      λ i. (
        same_option-IsSound str_eq (λ a b. (eq_iff a b).0) v v' p.0 i,
        same_option-IsSound same_int same_int-IsSound t t' q.0 i,
        same_option-IsSound mode_eq mode_eq-IsSound m m' q.1 i,
      )

  -- A segment of which only the verb and the time to live are set.
  abbrev pub bare : Option String → Option ℤ → OperationSpec N
  bare op_type ttl_seconds = record {
    keys = [];
    op_list = [];
    put_bins = none;
    bins = none;
    filter_expression = none;
    op_type = op_type;
    generation = none;
    ttl_seconds = ttl_seconds;
    durable_delete = none;
    durable_delete_command_default = none;
    contains_record_delete_op = false;
    udf_package = none;
    udf_function = none;
    udf_args = none;
  }

  module _ (c : Context N E) where
    -- The policy without any cache.
    abbrev pub fresh_policy : OperationSpec N → Option Mode → Option (BatchWritePolicy N E)
    fresh_policy spec mode =
        write_policy_with N E c spec mode (fresh_level N E c (row_mode N E c mode))

    fresh_policy-bare :
        (spec : OperationSpec N) (mode : Option Mode)
        → is_plain N E c spec ≡ true
        → fresh_policy spec mode ≡ fresh_policy (bare spec.op_type spec.ttl_seconds) mode
    unfolding write_policy_with
    fresh_policy-bare spec mode h =
        let p =
          and_true (is_none spec.filter_expression)
            (is_none spec.generation
              && (is_none spec.durable_delete
                  && (is_none spec.durable_delete_command_default
                      && not spec.contains_record_delete_op)))
            h in
        let q =
          and_true (is_none spec.generation)
            (is_none spec.durable_delete
              && (is_none spec.durable_delete_command_default
                  && not spec.contains_record_delete_op))
            p.1 in
        let r =
          and_true (is_none spec.durable_delete)
            (is_none spec.durable_delete_command_default && not spec.contains_record_delete_op)
            q.1 in
        let u =
          and_true (is_none spec.durable_delete_command_default)
            (not spec.contains_record_delete_op) r.1 in
        λ i.
          fresh_policy
            (record spec {
              filter_expression = none_of spec.filter_expression p.0 i;
              generation = none_of spec.generation q.0 i;
              durable_delete = none_of spec.durable_delete r.0 i;
              durable_delete_command_default = none_of spec.durable_delete_command_default u.0 i;
              contains_record_delete_op = not-true spec.contains_record_delete_op u.1 i;
            })
            mode

    abbrev pub Entry : CacheKey N E × Option (BatchWritePolicy N E) → Type 0
    Entry (key, policy) = policy ≡ fresh_policy (bare key.0 key.1) key.2

    abbrev pub LevelKept : Mode → Option (Option E.CommitLevel) → Type 0
    LevelKept mode o =
        (level : Option E.CommitLevel) → o ≡ some level → level ≡ fresh_level N E c mode

    -- Every entry of the caches is what would be computed anew.
    pub record IsCoherent (t : Caches N E) : Type 0 where
      pub level_ap : LevelKept mode_ap t.commit_level_ap
      pub level_sc : LevelKept mode_sc t.commit_level_sc
      pub plain_kept : All Entry t.plain

    pub no_caches-IsCoherent : IsCoherent (no_caches N E)
    no_caches-IsCoherent = record {
      level_ap = λ level h. absurd (cc h);
      level_sc = λ level h. absurd (cc h);
      plain_kept = tt;
    }

    or_level : Option E.CommitLevel → Option (Option E.CommitLevel) → Option E.CommitLevel
    or_level d none = d
    or_level d (some level) = level

    some_once :
        {a b : Option E.CommitLevel}
        → ◌≡◌ {A = Option (Option E.CommitLevel)} (some a) (some b)
        → a ≡ b
    unfolding or_level
    some_once {a} h = ap (or_level a) h

    keep_level-IsCoherent :
        (mode : Mode) (t : Caches N E)
        → IsCoherent t
        → IsCoherent (keep_level N E c mode (fresh_level N E c mode) t)
    keep_level-IsCoherent mode_ap t h = record {
      level_ap = λ level e. sym (some_once e);
      level_sc = h.level_sc;
      plain_kept = h.plain_kept;
    }
    keep_level-IsCoherent mode_sc t h = record {
      level_ap = h.level_ap;
      level_sc = λ level e. sym (some_once e);
      plain_kept = h.plain_kept;
    }

    pub cached_level-LevelKept :
        (mode : Mode) (t : Caches N E) → IsCoherent t → LevelKept mode (cached_level N E c mode t)
    cached_level-LevelKept mode_ap t h = h.level_ap
    cached_level-LevelKept mode_sc t h = h.level_sc

    pub level_or_fresh-IsCoherent :
        (mode : Mode) (o : Option (Option E.CommitLevel)) (t : Caches N E)
        → IsCoherent t
        → LevelKept mode o
        → ((level_or_fresh N E c mode o t).0 ≡ fresh_level N E c mode)
          × IsCoherent (level_or_fresh N E c mode o t).1
    level_or_fresh-IsCoherent mode none t h k = (refl, keep_level-IsCoherent mode t h)
    level_or_fresh-IsCoherent mode (some level) t h k = (k level refl, h)

    build-IsCoherent :
        (spec : OperationSpec N) (mode : Option Mode) (t : Caches N E)
        → IsCoherent t
        → ((build_batch_write_policy N E c spec mode t).0 ≡ fresh_policy spec mode)
          × IsCoherent (build_batch_write_policy N E c spec mode t).1
    unfolding build_batch_write_policy batch_commit_level
    build-IsCoherent spec mode t h =
        let m = row_mode N E c mode in
        let p =
          level_or_fresh-IsCoherent m (cached_level N E c m t) t h (cached_level-LevelKept m t h) in
        (ap (write_policy_with N E c spec mode) p.0, p.1)

    get-Entry :
        (key : CacheKey N E) (policy : Option (BatchWritePolicy N E))
        (entries : List (CacheKey N E × Option (BatchWritePolicy N E)))
        → All Entry entries
        → get (same_key N E) key entries ≡ some policy
        → policy ≡ fresh_policy (bare key.0 key.1) key.2
    get-Entry key policy [] h e = absurd (cc e)
    get-Entry key policy ((other, kept) ∷ entries) h e =
        elim (Bool-cases (same_key N E key other)) [
          | inl k ↦
              sym (once (rw k at e))
              ∙ h.0
              ∙ ap (λ (x : CacheKey N E). fresh_policy (bare x.0 x.1) x.2)
                  (sym (same_key-IsSound key other k))
          | inr k ↦ get-Entry key policy entries h.1 (rw k at e)
        ]
      where
        unwrap : Option (Option (BatchWritePolicy N E)) → Option (BatchWritePolicy N E)
        unwrap none = none
        unwrap (some x) = x

        once :
            {a b : Option (BatchWritePolicy N E)}
            → ◌≡◌ {A = Option (Option (BatchWritePolicy N E))} (some a) (some b)
            → a ≡ b
        once q = ap unwrap q

    plain_or_build-IsCoherent :
        (spec : OperationSpec N) (mode : Option Mode) (o : Option (Option (BatchWritePolicy N E)))
        (t : Caches N E)
        → is_plain N E c spec ≡ true
        → IsCoherent t
        → get (same_key N E) (spec.op_type, spec.ttl_seconds, mode) t.plain ≡ o
        → ((plain_or_build N E c spec mode o t).0 ≡ fresh_policy spec mode)
          × IsCoherent (plain_or_build N E c spec mode o t).1
    unfolding plain_or_build
    plain_or_build-IsCoherent spec mode none t plain h e =
        let b = build-IsCoherent spec mode t h in
        let u = b.1 in
        (
          b.0,
          record {
            level_ap = u.level_ap;
            level_sc = u.level_sc;
            plain_kept = (b.0 ∙ fresh_policy-bare spec mode plain, u.plain_kept);
          },
        )
    plain_or_build-IsCoherent spec mode (some policy) t plain h e = (
      get-Entry (spec.op_type, spec.ttl_seconds, mode) policy t.plain h.plain_kept e
          ∙ sym (fresh_policy-bare spec mode plain),
      h,
    )

    -- Whatever the caches have kept of segments before, a row of a write segment gets the policy
    -- that would be made anew for it, and the caches go on keeping nothing else.
    pub make_batch_write_policy_mixed-IsCoherent :
        (spec : OperationSpec N) (mode : Option Mode) (t : Caches N E)
        → IsCoherent t
        → ((make_batch_write_policy_mixed N E c spec mode t).0 ≡ fresh_policy spec mode)
          × IsCoherent (make_batch_write_policy_mixed N E c spec mode t).1
    unfolding make_batch_write_policy_mixed
    make_batch_write_policy_mixed-IsCoherent spec mode t h =
        elim (Bool-cases (is_plain N E c spec)) [
          | inl p ↦ rw p (
              plain_or_build-IsCoherent spec mode
                (get (same_key N E) (spec.op_type, spec.ttl_seconds, mode) t.plain) t p h refl)
          | inr p ↦ rw p (build-IsCoherent spec mode t h)
        ]
