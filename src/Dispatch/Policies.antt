-- ===== src/Dispatch/Policies.antt =====
-- The policies of batch rows in aerospike_sdk/query_shared.py, with the two caches of a builder.
pub mod Laws
use aerospike_client_python.Base.{
  ℤ, String, str_eq, Bool, true, false, ◌&&◌, ◌||◌, not, is_none, is_some, Option, none, some, List,
  [], ◌∷◌, if◌then◌else◌,
}
use aerospike_client_python.Base.Dict.{get}
use aerospike_client_python.Config.Equality.{same_int, same_option}
use aerospike_client_python.Batch.Native.{Native}
use aerospike_client_python.Batch.Spec.{OperationSpec}
use aerospike_client_python.Policy.Settings.{
  Enums, write_non_retryable, batch, Mode, ap, sc, Settings,
}
use aerospike_client_python.Policy.Behavior.{mode_eq}
use aerospike_client_python.Policy.Mapper.{or_keep, resolve_durable_delete}
use aerospike_client_python.Dispatch.{
  RecordExistsAction, op_type_to_rea, verb_of, Expiration, to_expiration, Context, row_mode,
}

module _ (N : Native) (E : Enums) where
  -- A row's policy with what the SDK sets; a generation is expected to be equal.
  pub record BatchWritePolicy : Type 0 where
    pub send_key : Bool
    pub record_exists_action : Option RecordExistsAction
    pub filter_expression : Option N.FilterExpression
    pub generation : Option ℤ
    pub expiration : Option Expiration
    pub commit_level : Option E.CommitLevel
    pub durable_delete : Option Bool

  pub record BatchDeletePolicy : Type 0 where
    pub send_key : Bool
    pub filter_expression : Option N.FilterExpression
    pub generation : Option ℤ
    pub commit_level : Option E.CommitLevel
    pub durable_delete : Bool

  pub record BatchUdfPolicy : Type 0 where
    pub send_key : Bool
    pub filter_expression : Option N.FilterExpression
    pub expiration : Option Expiration
    pub commit_level : Option E.CommitLevel
    pub durable_delete : Bool

  -- `(spec.op_type, spec.ttl_seconds, mode)`
  abbrev pub CacheKey : Type 0
  CacheKey = Option String × Option ℤ × Option Mode

  abbrev pub same_key : CacheKey → CacheKey → Bool
  same_key (v, t, m) (v', t', m') =
      same_option str_eq v v' && (same_option same_int t t' && same_option mode_eq m m')

  -- `_batch_commit_level_ap` and its sibling, `none` while unresolved, and
  -- `_plain_batch_write_policies`.
  pub record Caches : Type 0 where
    pub commit_level_ap : Option (Option E.CommitLevel)
    pub commit_level_sc : Option (Option E.CommitLevel)
    pub plain : List (CacheKey × Option BatchWritePolicy)

  abbrev pub no_caches : Caches
  no_caches = record { commit_level_ap = none; commit_level_sc = none; plain = [] }

  module _ (c : Context N E) where
    abbrev pub row_settings : Mode → Settings E
    row_settings mode = c.settings write_non_retryable batch mode

    unfoldable pub batch_write_effective_dd : OperationSpec N → Option Mode → Bool
    unfolding resolve_durable_delete
    batch_write_effective_dd spec mode =
        resolve_durable_delete (row_settings (row_mode N E c mode)).durable_delete
          spec.durable_delete_command_default spec.durable_delete

    abbrev pub batch_send_key : Option Mode → Bool
    batch_send_key mode = or_keep (row_settings (row_mode N E c mode)).send_key false

    -- A level that is the core's default is not set.
    abbrev pub unless_all : Option E.CommitLevel → Option E.CommitLevel
    unless_all none = none
    unless_all (some level) = if c.is_commit_all level then none else some level

    abbrev pub fresh_level : Mode → Option E.CommitLevel
    fresh_level mode = unless_all (row_settings mode).commit_level

    abbrev pub cached_level : Mode → Caches → Option (Option E.CommitLevel)
    cached_level ap t = t.commit_level_ap
    cached_level sc t = t.commit_level_sc

    abbrev pub keep_level : Mode → Option E.CommitLevel → Caches → Caches
    keep_level ap level t = record t { commit_level_ap = some level }
    keep_level sc level t = record t { commit_level_sc = some level }

    abbrev pub level_or_fresh :
        Mode → Option (Option E.CommitLevel) → Caches → Option E.CommitLevel × Caches
    level_or_fresh mode none t = (fresh_level mode, keep_level mode (fresh_level mode) t)
    level_or_fresh mode (some level) t = (level, t)

    unfoldable pub batch_commit_level : Option Mode → Caches → Option E.CommitLevel × Caches
    batch_commit_level mode t = let m = row_mode N E c mode in level_or_fresh m (cached_level m t) t

    abbrev pub expires : Option ℤ → Option Expiration
    expires none = none
    expires (some ttl) = some (to_expiration ttl)

    abbrev pub when_any : {A : Type 0} → Bool → A → Option A
    when_any has_settings policy = if has_settings then some policy else none

    -- The policy that a write row comes to, with a commit level.
    unfoldable pub write_policy_with :
        OperationSpec N → Option Mode → Option E.CommitLevel → Option BatchWritePolicy
    unfolding batch_write_effective_dd
    write_policy_with spec mode level =
        let rea = op_type_to_rea (verb_of spec.op_type) in
        let eff = spec.contains_record_delete_op && batch_write_effective_dd spec mode in
        let send_key = batch_send_key mode in
        when_any
          (is_some rea
            || (is_some spec.filter_expression
                || (is_some spec.generation
                    || (is_some spec.ttl_seconds
                        || (is_some spec.durable_delete
                            || (is_some spec.durable_delete_command_default
                                || (is_some level
                                    || (send_key
                                        || (spec.contains_record_delete_op
                                            && (eff
                                                || (is_some spec.durable_delete
                                                    || is_some
                                                        spec.durable_delete_command_default)))))))))))
          (record {
            send_key = send_key;
            record_exists_action = rea;
            filter_expression = spec.filter_expression;
            generation = spec.generation;
            expiration = expires spec.ttl_seconds;
            commit_level = level;
            durable_delete = if spec.contains_record_delete_op then some eff else none;
          })

    -- `_build_batch_write_policy`, and `_make_batch_write_policy`, which says the same.
    unfoldable pub build_batch_write_policy :
        OperationSpec N → Option Mode → Caches → Option BatchWritePolicy × Caches
    unfolding batch_commit_level write_policy_with
    build_batch_write_policy spec mode t =
        let level = batch_commit_level mode t in (write_policy_with spec mode level.0, level.1)

    unfoldable pub make_batch_delete_policy :
        OperationSpec N → Option Mode → Caches → Option BatchDeletePolicy × Caches
    unfolding batch_commit_level batch_write_effective_dd
    make_batch_delete_policy spec mode t =
        let eff = batch_write_effective_dd spec mode in
        let level = batch_commit_level mode t in
        let send_key = batch_send_key mode in
        (
          when_any
              (is_some spec.filter_expression
                || (is_some spec.generation
                    || (is_some spec.durable_delete
                        || (is_some spec.durable_delete_command_default
                            || (is_some level.0 || (eff || send_key))))))
              (record {
                send_key = send_key;
                filter_expression = spec.filter_expression;
                generation = spec.generation;
                commit_level = level.0;
                durable_delete = eff;
              }),
          level.1,
        )

    unfoldable pub make_batch_udf_policy :
        OperationSpec N → Option Mode → Caches → Option BatchUdfPolicy × Caches
    unfolding batch_commit_level batch_write_effective_dd
    make_batch_udf_policy spec mode t =
        let eff = batch_write_effective_dd spec mode in
        let level = batch_commit_level mode t in
        let send_key = batch_send_key mode in
        (
          when_any
              (is_some spec.filter_expression
                || (is_some spec.ttl_seconds
                    || (is_some spec.durable_delete
                        || (is_some spec.durable_delete_command_default
                            || (is_some level.0 || (eff || send_key))))))
              (record {
                send_key = send_key;
                filter_expression = spec.filter_expression;
                expiration = expires spec.ttl_seconds;
                commit_level = level.0;
                durable_delete = eff;
              }),
          level.1,
        )

    abbrev pub is_plain : OperationSpec N → Bool
    is_plain spec =
        is_none spec.filter_expression
        && (is_none spec.generation
            && (is_none spec.durable_delete
                && (is_none spec.durable_delete_command_default
                    && not spec.contains_record_delete_op)))

    abbrev pub keep_plain :
        CacheKey → Option BatchWritePolicy × Caches → Option BatchWritePolicy × Caches
    keep_plain key (policy, t) = (policy, record t { plain = (key, policy) ∷ t.plain })

    -- A cached policy, or a new one, which is kept. The key is not in the cache when it is added.
    abbrev pub plain_or_build :
        OperationSpec N
        → Option Mode
        → Option (Option BatchWritePolicy)
        → Caches
        → Option BatchWritePolicy × Caches
    unfolding build_batch_write_policy
    plain_or_build spec mode none t =
        keep_plain (spec.op_type, spec.ttl_seconds, mode) (build_batch_write_policy spec mode t)
    plain_or_build spec mode (some policy) t = (policy, t)

    unfoldable pub make_batch_write_policy_mixed :
        OperationSpec N → Option Mode → Caches → Option BatchWritePolicy × Caches
    unfolding plain_or_build build_batch_write_policy
    make_batch_write_policy_mixed spec mode t =
        if is_plain spec
        then plain_or_build spec mode (get same_key (spec.op_type, spec.ttl_seconds, mode) t.plain)
            t
        else build_batch_write_policy spec mode t
