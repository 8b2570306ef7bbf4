-- ===== src/Policy/Behavior/Predefined.antt =====
-- The predefined behaviors at the end of aerospike_sdk/policy/behavior.py.
use aerospike_client_python.Base.{◌≡◌, refl, pos, true, false, some, [], ◌∷◌, List}
use aerospike_client_python.Policy.Settings.{
  Enums, OpKind, read, write_retryable, write_non_retryable, OpShape, point, batch, query, Mode, ap,
  sc, all, reads, reads_batch, reads_query, reads_sc, writes_non_retryable, writes_batch,
  writes_query, writes_ap, writes_sc, system_txn_verify, system_txn_roll, unset, merge,
  resolution_order,
}
use aerospike_client_python.Policy.Behavior.{Patches, get, layer, resolve}

-- The members of the enumerations of aerospike_native that the predefined behaviors use.
pub record Members (E : Enums) : Type 0 where
  pub commit_all : E.CommitLevel
  pub sequence : E.Replica
  pub master : E.Replica
  pub prefer_rack : E.Replica
  pub one : E.ReadModeAp
  pub session : E.ReadModeSc
  pub linearize : E.ReadModeSc

module _ (E : Enums) (M : Members E) where
  -- `Behavior.DEFAULT`, in microseconds.
  unfoldable pub default_patches : Patches E
  default_patches =
      (
        all,
        record (unset E) {
          total_timeout = some (pos 1000000);
          socket_timeout = some (pos 30000000);
          max_retries = some (pos 2);
          retry_delay = some (pos 0);
          send_key = some false;
          replica = some M.sequence;
          read_mode_ap = some M.one;
          read_mode_sc = some M.session;
          durable_delete = some false;
          max_concurrent_nodes = some (pos 1);
          read_touch_ttl_percent = some (pos 0);
        },
      )
      ∷ (
        reads_batch,
        record (unset E) {
          allow_inline = some true;
          allow_inline_ssd = some false;
          max_concurrent_nodes = some (pos 0);
        },
      )
      ∷ (
        reads_query,
        record (unset E) {
          total_timeout = some (pos 0);
          max_retries = some (pos 5);
          record_queue_size = some (pos 5000);
          max_concurrent_nodes = some (pos 0);
          allow_scans_with_where = some true;
        },
      )
      ∷ (
        writes_query,
        record (unset E) {
          total_timeout = some (pos 30000000);
          socket_timeout = some (pos 5000000);
          max_concurrent_nodes = some (pos 0);
        },
      )
      ∷ (writes_non_retryable, record (unset E) { max_retries = some (pos 0) })
      ∷ (writes_ap, record (unset E) { commit_level = some M.commit_all })
      ∷ (writes_sc, record (unset E) { durable_delete = some true })
      ∷ (
        writes_batch,
        record (unset E) {
          allow_inline = some true;
          allow_inline_ssd = some false;
          max_concurrent_nodes = some (pos 0);
        },
      )
      ∷ (
        system_txn_verify,
        record (unset E) {
          total_timeout = some (pos 10000000);
          socket_timeout = some (pos 3000000);
          max_retries = some (pos 5);
          retry_delay = some (pos 1000000);
          replica = some M.master;
          read_mode_sc = some M.linearize;
          max_concurrent_nodes = some (pos 0);
        },
      )
      ∷ (
        system_txn_roll,
        record (unset E) {
          total_timeout = some (pos 10000000);
          socket_timeout = some (pos 3000000);
          max_retries = some (pos 5);
          retry_delay = some (pos 1000000);
          replica = some M.master;
          max_concurrent_nodes = some (pos 0);
        },
      )
      ∷ []

  -- The patches of `Behavior.READ_FAST`, a child of `DEFAULT`.
  unfoldable pub read_fast_patches : Patches E
  read_fast_patches =
      (
        reads,
        record (unset E) {
          socket_timeout = some (pos 50000);
          total_timeout = some (pos 200000);
          max_retries = some (pos 3);
        },
      )
      ∷ []

  -- The patches of `Behavior.STRICTLY_CONSISTENT`, a child of `DEFAULT`.
  unfoldable pub strictly_consistent_patches : Patches E
  strictly_consistent_patches =
      (reads_sc, record (unset E) { read_mode_sc = some M.linearize }) ∷ []

  -- The patches of `Behavior.FAST_RACK_AWARE`, a child of `READ_FAST`.
  unfoldable pub fast_rack_aware_patches : Patches E
  fast_rack_aware_patches =
      (reads, record (unset E) { replica = some M.prefer_rack })
      ∷ (reads_sc, record (unset E) { read_mode_sc = some M.session })
      ∷ []

  strict_read_sc :
      (shape : OpShape)
      → resolve E (strictly_consistent_patches ∷ default_patches ∷ []) read shape sc
        ≡ record (resolve E (default_patches ∷ []) read shape sc) {
          read_mode_sc = some M.linearize;
        }
  unfolding resolve layer get merge resolution_order default_patches strictly_consistent_patches
  strict_read_sc point = refl
  strict_read_sc batch = refl
  strict_read_sc query = refl

  -- The strictly consistent behavior is the default one but for the reads of a strongly consistent
  -- namespace, which it makes linearizable.
  pub strictly_consistent_lem :
      (kind : OpKind) (shape : OpShape) (mode : Mode)
      → resolve E (strictly_consistent_patches ∷ default_patches ∷ []) kind shape mode
        ≡ (elim kind [
          | read ↦ elim mode [
            | sc ↦ record (resolve E (default_patches ∷ []) read shape sc) {
              read_mode_sc = some M.linearize;
            }
            | ap ↦ resolve E (default_patches ∷ []) read shape ap
          ]
          | other ↦ resolve E (default_patches ∷ []) other shape mode
        ])
  unfolding resolve layer get merge resolution_order default_patches strictly_consistent_patches
  strictly_consistent_lem read shape sc = strict_read_sc shape
  strictly_consistent_lem read point ap = refl
  strictly_consistent_lem read batch ap = refl
  strictly_consistent_lem read query ap = refl
  strictly_consistent_lem write_retryable point ap = refl
  strictly_consistent_lem write_retryable batch ap = refl
  strictly_consistent_lem write_retryable query ap = refl
  strictly_consistent_lem write_retryable point sc = refl
  strictly_consistent_lem write_retryable batch sc = refl
  strictly_consistent_lem write_retryable query sc = refl
  strictly_consistent_lem write_non_retryable point ap = refl
  strictly_consistent_lem write_non_retryable batch ap = refl
  strictly_consistent_lem write_non_retryable query ap = refl
  strictly_consistent_lem write_non_retryable point sc = refl
  strictly_consistent_lem write_non_retryable batch sc = refl
  strictly_consistent_lem write_non_retryable query sc = refl

  -- The chain of patches of a predefined behavior, the innermost first.
  pub data Predefined : Type 0 where
    default read_fast strictly_consistent fast_rack_aware : Predefined

  unfoldable pub chain_of : Predefined → List (Patches E)
  chain_of default = default_patches ∷ []
  chain_of read_fast = read_fast_patches ∷ default_patches ∷ []
  chain_of strictly_consistent = strictly_consistent_patches ∷ default_patches ∷ []
  chain_of fast_rack_aware = fast_rack_aware_patches ∷ read_fast_patches ∷ default_patches ∷ []

  -- Under every predefined behavior, a write that may not be repeated is tried once, and exactly
  -- the writes of a strongly consistent namespace delete durably.
  pub predefined_writes :
      (b : Predefined) (shape : OpShape) (mode : Mode)
      → ((resolve E (chain_of b) write_non_retryable shape mode).max_retries ≡ some (pos 0))
        × ((resolve E (chain_of b) write_non_retryable shape mode).durable_delete
            ≡ some (elim mode [ ap ↦ false | sc ↦ true ]))
  unfolding chain_of resolve layer get merge resolution_order default_patches read_fast_patches
      strictly_consistent_patches fast_rack_aware_patches
  predefined_writes default point ap = (refl, refl)
  predefined_writes default point sc = (refl, refl)
  predefined_writes default batch ap = (refl, refl)
  predefined_writes default batch sc = (refl, refl)
  predefined_writes default query ap = (refl, refl)
  predefined_writes default query sc = (refl, refl)
  predefined_writes read_fast point ap = (refl, refl)
  predefined_writes read_fast point sc = (refl, refl)
  predefined_writes read_fast batch ap = (refl, refl)
  predefined_writes read_fast batch sc = (refl, refl)
  predefined_writes read_fast query ap = (refl, refl)
  predefined_writes read_fast query sc = (refl, refl)
  predefined_writes strictly_consistent point ap = (refl, refl)
  predefined_writes strictly_consistent point sc = (refl, refl)
  predefined_writes strictly_consistent batch ap = (refl, refl)
  predefined_writes strictly_consistent batch sc = (refl, refl)
  predefined_writes strictly_consistent query ap = (refl, refl)
  predefined_writes strictly_consistent query sc = (refl, refl)
  predefined_writes fast_rack_aware point ap = (refl, refl)
  predefined_writes fast_rack_aware point sc = (refl, refl)
  predefined_writes fast_rack_aware batch ap = (refl, refl)
  predefined_writes fast_rack_aware batch sc = (refl, refl)
  predefined_writes fast_rack_aware query ap = (refl, refl)
  predefined_writes fast_rack_aware query sc = (refl, refl)
