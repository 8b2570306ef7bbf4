-- ===== src/Metrics/Timer.antt =====
-- `_MetricsExportTimer` and `_deliver` of aerospike_sdk/metrics/export.py: the cycles of an export
-- timer. An exporter is its `id`.
pub mod Laws
pub mod Retry
use aerospike_client_python.Base.{
  ℕ, Bool, true, false, ◌==◌, any, String, Option, none, some, List, [], ◌∷◌, if◌then◌else◌,
}
use aerospike_client_python.Base.Dict.{get, put}
use aerospike_client_python.Metrics.Departures.{departed}
use aerospike_client_python.Metrics.Health.{Health, new_health, should_attempt, succeed, fail}

-- `_health`
abbrev pub Healths : Type 0
Healths = List (ℕ × Health)

-- `closed` is the set of the tracker.
pub record Timer : Type 0 where
  pub closed : List String
  pub healths : Healths

-- `id(exporter) in ids`
abbrev pub is_among : ℕ → List ℕ → Bool
is_among e ids = any (λ i. e == i) ids

abbrev pub or_new : Option Health → Health
or_new none = new_health
or_new (some h) = h

-- `self._health.get(id(exporter))` with the default of `setdefault`.
abbrev pub health_of : ℕ → Healths → Health
health_of e d = or_new (get ◌==◌ e d)

unfoldable pub prune : List ℕ → Healths → Healths
prune ids [] = []
prune ids ((e, h) ∷ d) = let rest = prune ids d in if is_among e ids then (e, h) ∷ rest else rest

-- The loop of `exporters_to_run`: the exporters to call, and the healths.
unfoldable pub attempt_each : List ℕ → Healths → List ℕ × Healths
attempt_each [] d = ([], d)
attempt_each (e ∷ es) d =
    let r = should_attempt (health_of e d) in
    let rest = attempt_each es (put ◌==◌ e (r.1) d) in (if r.0 then e ∷ rest.0 else rest.0, rest.1)

unfoldable pub exporters_to_run : List ℕ → Healths → List ℕ × Healths
unfolding prune attempt_each
exporters_to_run current d = attempt_each current (prune current d)

-- What the cluster gives a cycle: the exporters, the hosts of the snapshot and the live ones unless
-- taking the snapshot raises, and which exports raise.
pub record Cycle : Type 0 where
  pub targets : List ℕ
  pub snapshot : Option (List String × List String)
  pub fails : ℕ → Bool

-- The departures that the snapshot carries with the exporters to call; nobody to call; or the
-- snapshot's exception.
pub data Taken : Type 0 where
  batch : List String → List ℕ → Taken
  nobody broken : Taken

abbrev pub snapshot_for :
    Option (List String × List String) → List String → Healths → List ℕ → Taken × Timer
unfolding departed
snapshot_for none closed d runnable = (broken, record { closed = closed; healths = d })
snapshot_for (some hosts) closed d runnable =
    let r = departed closed hosts.0 hosts.1 in
    (batch r.0 runnable, record { closed = r.1; healths = d })

abbrev pub take_for : Cycle → List String → List ℕ → Healths → Taken × Timer
take_for c closed [] d = (nobody, record { closed = closed; healths = d })
take_for c closed (e ∷ es) d = snapshot_for c.snapshot closed d (e ∷ es)

unfoldable pub take : Cycle → Timer → Taken × Timer
unfolding exporters_to_run
take c t = let r = exporters_to_run c.targets t.healths in take_for c t.closed r.0 r.1

unfoldable pub record_success : ℕ → Healths → Healths
unfolding succeed
record_success e d = elim (get ◌==◌ e d) [ none ↦ d | some h ↦ put ◌==◌ e (succeed h) d ]

unfoldable pub record_failure : ℕ → Healths → Healths
unfolding fail
record_failure e d = put ◌==◌ e (fail (health_of e d)) d

-- `_deliver`
unfoldable pub deliver : (ℕ → Bool) → List ℕ → Healths → Healths
unfolding record_success record_failure
deliver fails [] d = d
deliver fails (e ∷ es) d =
    deliver fails es (if fails e then record_failure e d else record_success e d)

abbrev pub delivered : Cycle → Taken × Timer → Timer
unfolding deliver
delivered c (nobody, t) = t
delivered c (broken, t) = t
delivered c (batch hosts es, t) = record t { healths = deliver c.fails es t.healths }

-- `_export_once`, whose exceptions `_run` drops.
unfoldable pub export_once : Cycle → Timer → Timer
unfolding take
export_once c t = delivered c (take c t)
