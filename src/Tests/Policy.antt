-- ===== src/Tests/Policy.antt =====
-- A tree of two behaviors with a live session, and the theorems on behaviors.
use aerospike_client_python.Base.{
  ℕ, ◌≡◌, refl, pos, Bool, true, false, Option, none, some, List, [], ◌∷◌,
}
use aerospike_client_python.Policy.Settings.{Enums, read, query, ap, reads, Settings, unset}
use aerospike_client_python.Policy.Behavior.{resolve, OpKey, Behavior, behavior, childless, child}
use aerospike_client_python.Policy.Settings.Fields.{total_timeout_field, read as read_field}
use aerospike_client_python.Policy.Behavior.Layers.{decided, field-resolve}
use aerospike_client_python.Policy.Behavior.Caches.{Changes, new_behavior, reload_patches}
use aerospike_client_python.Policy.Behavior.Coherence.{AllFresh, reload_patches-AllFresh}
use aerospike_client_python.Policy.Behavior.Predefined.{Members, default_patches, default, chain_of}

-- Members of the enumerations by number.
abbrev enums : Enums
enums = record { CommitLevel = ℕ; Replica = ℕ; ReadModeAp = ℕ; ReadModeSc = ℕ }

abbrev members : Members enums
members = record {
  commit_all = 0;
  sequence = 1;
  master = 0;
  prefer_rack = 2;
  one = 0;
  session = 0;
  linearize = 1;
}

field-resolve_example :
    read_field enums total_timeout_field
      (resolve enums (chain_of enums members default) read query ap)
    ≡ decided enums total_timeout_field (chain_of enums members default) read query ap
field-resolve_example =
    field-resolve enums total_timeout_field (chain_of enums members default) read query ap

-- A session keeps the number of cells of the matrix that it was refreshed from.
abbrev refresh : List (OpKey × Settings enums) → Option Bool
refresh [] = none
refresh (_ ∷ _) = some true

-- A root with one child and a session that is out of date.
abbrev stale : Behavior enums Bool
stale =
    behavior
      (record {
        id = 0;
        name = "DEFAULT";
        patches = [];
        resolved = [];
        resolved_txn = [];
        sessions = record { id = 1; cached = false } ∷ [];
      })
      (child (new_behavior enums ([] ∷ []) 1 "fast" ((reads, unset enums) ∷ [])) childless)

reload_finishes : (reload_patches enums refresh [] (default_patches enums members) stale).1 ≡ true
unfolding reload_patches new_behavior
reload_finishes = refl

reload_patches-AllFresh_example :
    AllFresh enums refresh []
      (reload_patches enums refresh [] (default_patches enums members) stale).0
reload_patches-AllFresh_example =
    reload_patches-AllFresh enums refresh [] (default_patches enums members) stale reload_finishes

abbrev faster : Changes enums
faster = record {
  all = none;
  reads = some (record (unset enums) { total_timeout = some (pos 200000) });
  reads_point = none;
  reads_batch = none;
  reads_query = none;
  reads_ap = none;
  reads_sc = none;
  writes = none;
  writes_retryable = none;
  writes_non_retryable = none;
  writes_point = none;
  writes_batch = none;
  writes_query = none;
  writes_ap = none;
  writes_sc = none;
  system_txn_verify = none;
  system_txn_roll = none;
}

abbrev reloaded : Behavior enums Bool
reloaded = (reload_patches enums refresh [] (default_patches enums members) stale).0
