-- ===== src/Tests/Metrics.antt =====
-- An exporter that fails four times beside one that does not, a host that leaves, and two threads
-- that count.
use aerospike_client_python.Base.{
  ℕ, suc, zero, ◌≤◌, String, true, any, some, List, [], ◌∷◌, ◌==◌, ◌≡◌, refl, eq_iff, arith,
}
use aerospike_client_python.Metrics.Departures.{Call, count}
use aerospike_client_python.Metrics.Health.{cycle, should_attempt, fail}
use aerospike_client_python.Metrics.Health.Laws.{Reached, new, by_cycle, id}
use aerospike_client_python.Metrics.Timer.{Timer, Cycle, health_of}
use aerospike_client_python.Metrics.Timer.Laws.{run, IsDistinct, machines, health_of-run}
use aerospike_client_python.Metrics.Timer.Retry.{called_in, IsKept, called_in-within_ten}
use aerospike_client_python.Metrics.Usage.{
  count_of, totals, after_events, new_counters, Event, adds, leaves,
}
use aerospike_client_python.Metrics.Usage.Laws.{shared, totals-after_events}

abbrev snapshots : List Call
snapshots =
    ("a" ∷ "b" ∷ [], "a" ∷ "b" ∷ []) ∷ ("a" ∷ "b" ∷ [], "a" ∷ []) ∷ ("a" ∷ "b" ∷ [], "a" ∷ []) ∷ []

once : (h : String) → count h ("a" ∷ "b" ∷ []) ≤ 1
once h = ground (arith, eq_iff h "a", eq_iff h "b", eq_iff "a" "b")

three_failures :
    Reached (record { failures = 3; suspended = true; skipped = 0 }) (true ∷ true ∷ true ∷ [])
unfolding cycle should_attempt fail
three_failures = by_cycle (by_cycle (by_cycle new true) true) true

-- Exporter 1 fails and exporter 2 does not.
abbrev export : Cycle
export = record { targets = 1 ∷ 2 ∷ []; snapshot = some ("a" ∷ [], "a" ∷ []); fails = λ e. e == 1 }

abbrev idle : Timer
idle = record { closed = []; healths = [] }

abbrev four_cycles : List Cycle
four_cycles = export ∷ export ∷ export ∷ export ∷ []

health_of-run_example :
    (λ e. health_of e (run four_cycles idle).healths) ≡ machines four_cycles (λ e. health_of e [])
health_of-run_example = health_of-run four_cycles idle (refl, (refl, (refl, (refl, tt))))

abbrev cycles : ℕ → List Cycle
cycles zero = []
cycles (suc n) = export ∷ cycles n

cycles-IsDistinct : (n : ℕ) → IsDistinct (cycles n)
cycles-IsDistinct zero = tt
cycles-IsDistinct (suc n) = (refl, cycles-IsDistinct n)

cycles-IsKept : (n : ℕ) → IsKept 1 (cycles n)
cycles-IsKept zero = tt
cycles-IsKept (suc n) = (refl, refl, cycles-IsKept n)

called_in-within_ten_example : any id (called_in 1 (cycles 10) idle) ≡ true
called_in-within_ten_example =
    called_in-within_ten 1 (cycles 10) idle (cycles-IsDistinct 10) (cycles-IsKept 10) (omega arith)

abbrev events : List Event
events =
    adds 1 ("feature.cdt" ∷ "feature.shape.point" ∷ [])
    ∷ adds 2 ("feature.cdt" ∷ [])
    ∷ leaves 1
    ∷ adds 1 ("feature.cdt" ∷ [])
    ∷ []

totals-after_events_example :
    count_of "feature.cdt" (totals (after_events events new_counters)) ≡ shared "feature.cdt" events
totals-after_events_example = totals-after_events "feature.cdt" events
