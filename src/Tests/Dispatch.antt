-- ===== src/Tests/Dispatch.antt =====
-- Rows of a batch that spans a namespace of each consistency mode, and policies of reads.
use aerospike_client_python.Base.{
  All, ◌⊎◌, inr, String, str_eq, if◌then◌else◌, ℕ, ◌==◌, true, false, none, some, [], ◌∷◌, map, ◌≡◌,
  refl,
}
use aerospike_client_python.Batch.Spec.{OperationSpec}
use aerospike_client_python.Policy.Settings.{Enums, ap, sc, Mode, Settings, unset}
use aerospike_client_python.Dispatch.{Context}
use aerospike_client_python.Dispatch.Policies.{no_caches, make_batch_write_policy_mixed}
use aerospike_client_python.Dispatch.Policies.Laws.{
  IsCoherent, no_caches-IsCoherent, fresh_policy, make_batch_write_policy_mixed-IsCoherent,
}
use aerospike_client_python.Dispatch.Ops.{write_op, write_rows}
use aerospike_client_python.Dispatch.Ops.Laws.{own_policy, write_rows-own_policy}
use aerospike_client_python.Dispatch.Modes.{Modes, ask, ensure_modes}
use aerospike_client_python.Dispatch.Modes.Laws.{Own, ensure_modes-Own}
use aerospike_client_python.Tests.Batch.{core, segment}

abbrev pub enums : Enums
enums = record { CommitLevel = ℕ; Replica = ℕ; ReadModeAp = ℕ; ReadModeSc = ℕ }

abbrev pub by_mode : Mode → Settings enums
by_mode ap = unset enums
by_mode sc = record (unset enums) { durable_delete = some true; send_key = some true }

-- The builder's namespace is `main`, and the keys are in `test`, a namespace of strong consistency.
abbrev pub context : Context core enums
context = record {
  settings = λ kind shape mode. by_mode mode;
  namespace = "main";
  namespace_mode = ap;
  batch_namespace_modes = some (("test", sc) ∷ []);
  is_commit_all = λ level. level == 0;
}

abbrev insert_ab : OperationSpec core
insert_ab = segment ("a" ∷ "b" ∷ []) (some "insert")

make_batch_write_policy_mixed-IsCoherent_example :
    let t = no_caches core enums in
    ((make_batch_write_policy_mixed core enums context insert_ab (some sc) t).0
      ≡ fresh_policy core enums context insert_ab (some sc))
    × IsCoherent core enums context
        (make_batch_write_policy_mixed core enums context insert_ab (some sc) t).1
make_batch_write_policy_mixed-IsCoherent_example =
    make_batch_write_policy_mixed-IsCoherent core enums context insert_ab (some sc)
      (no_caches core enums) (no_caches-IsCoherent core enums context)

write_rows-own_policy_example :
    let r = write_rows core enums "touch" context [] none insert_ab (no_caches core enums) in
    (r.0
      ≡ map
          (λ key. write_op key [] (own_policy core enums "touch" context insert_ab key) none)
          ("a" ∷ "b" ∷ []))
    × IsCoherent core enums context r.1
write_rows-own_policy_example =
    write_rows-own_policy core enums "touch" context [] none insert_ab (no_caches core enums)
      (no_caches-IsCoherent core enums context)

-- A builder that has asked nothing yet, on a cluster of which `main` is not consistent and every
-- other namespace is.
abbrev cluster : String → ℕ ⊎ Mode
cluster ns = if str_eq ns "main" then inr ap else inr sc

abbrev unresolved : Modes core ℕ ℕ
unresolved = record {
  namespace = "main";
  resolver = some cluster;
  namespace_mode = none;
  base = 1;
  base_sc = 2;
  batch_namespace_modes = none;
  batch_any_sc = false;
}

abbrev resolved : Modes core ℕ ℕ
resolved = record unresolved {
  namespace_mode = some ap;
  batch_namespace_modes = some (("test", sc) ∷ []);
  batch_any_sc = true;
}

ensure_modes_resolved : ensure_modes core ℕ ℕ (insert_ab ∷ []) unresolved ≡ (none, resolved)
unfolding ensure_modes
ensure_modes_resolved = refl

ensure_modes-Own_example :
    (mode : Mode) × (resolved.namespace_mode ≡ some mode)
    × ((unresolved.namespace_mode ≡ some mode)
        ⊎ (ask core ℕ ℕ unresolved.resolver unresolved.namespace ≡ inr mode))
    × All (λ spec. All (Own core ℕ ℕ enums context mode resolved) spec.keys) (insert_ab ∷ [])
ensure_modes-Own_example =
    ensure_modes-Own core ℕ ℕ enums context (insert_ab ∷ []) unresolved resolved
      ensure_modes_resolved
