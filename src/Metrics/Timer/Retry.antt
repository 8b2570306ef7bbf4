-- ===== src/Metrics/Timer/Retry.antt =====
-- How often the export timer of aerospike_sdk/metrics/export.py calls an exporter that stays.
use aerospike_client_python.Base.{
  ℕ, suc, ◌≤◌, Bool, true, any, is_some, List, [], ◌∷◌, length, ◌≡◌, refl, ap, ap₂, ◌∙◌, arith,
}
use aerospike_client_python.Metrics.Health.{cycle}
use aerospike_client_python.Metrics.Health.Laws.{calls, calls-within_ten, id}
use aerospike_client_python.Metrics.Timer.{
  Timer, Cycle, is_among, health_of, prune, exporters_to_run, export_once,
}
use aerospike_client_python.Metrics.Timer.Laws.{
  distinct, IsDistinct, health_of-prune, health_of-attempt_each, health_of-export_once,
}

module _ (e : ℕ) where
  -- Whether each cycle of a sequence calls the exporter.
  unfoldable pub called_in : List Cycle → Timer → List Bool
  unfolding exporters_to_run export_once
  called_in [] t = []
  called_in (c ∷ cs) t =
      is_among e (exporters_to_run c.targets t.healths).0 ∷ called_in cs (export_once c t)

  -- The exporter is a target of every cycle, and each snapshot can be taken.
  abbrev pub IsKept : List Cycle → Type 0
  IsKept [] = Unit
  IsKept (c ∷ cs) = (is_among e c.targets ≡ true) × (is_some c.snapshot ≡ true) × IsKept cs

  abbrev answers : List Cycle → List Bool
  answers [] = []
  answers (c ∷ cs) = c.fails e ∷ answers cs

  called-cycle :
      (c : Cycle) (t : Timer)
      → distinct c.targets ≡ true
      → is_among e c.targets ≡ true
      → is_among e (exporters_to_run c.targets t.healths).0
        ≡ (cycle (c.fails e) (health_of e t.healths)).0
  unfolding exporters_to_run cycle
  called-cycle c t u m =
      let pruned : health_of e (prune c.targets t.healths) ≡ health_of e t.healths =
        health_of-prune e c.targets t.healths ∙ rw m refl in
      (health_of-attempt_each e c.targets (prune c.targets t.healths) u).1 ∙ rw (m, pruned) refl

  health-cycle :
      (c : Cycle) (t : Timer)
      → distinct c.targets ≡ true
      → is_among e c.targets ≡ true
      → is_some c.snapshot ≡ true
      → health_of e (export_once c t).healths ≡ (cycle (c.fails e) (health_of e t.healths)).1
  health-cycle c t u m s = health_of-export_once c t e u ∙ rw (m, s) refl

  called_in-calls :
      (cs : List Cycle) (t : Timer)
      → IsDistinct cs
      → IsKept cs
      → called_in cs t ≡ calls (health_of e t.healths) (answers cs)
  unfolding called_in calls
  called_in-calls [] t u k = refl
  called_in-calls (c ∷ cs) t u k =
      ap₂ (λ b bs. b ∷ bs) (called-cycle c t (u.0) (k.0))
        (called_in-calls cs (export_once c t) (u.1) (k.2)
          ∙ ap (λ h. calls h (answers cs)) (health-cycle c t (u.0) (k.0) (k.1)))

  length-answers : (cs : List Cycle) → length (answers cs) ≡ length cs
  length-answers [] = refl
  length-answers (c ∷ cs) = ap suc (length-answers cs)

  -- Whatever state the timer is in and whatever the exports answer, an exporter that stays among
  -- the targets is called in one of any ten consecutive cycles whose snapshots can be taken and in
  -- whose targets no exporter stands twice.
  pub called_in-within_ten :
      (cs : List Cycle) (t : Timer)
      → IsDistinct cs
      → IsKept cs
      → 10 ≤ length cs
      → any id (called_in cs t) ≡ true
  called_in-within_ten cs t u k l =
      ap (any id) (called_in-calls cs t u k)
      ∙ calls-within_ten (health_of e t.healths) (answers cs) (omega (arith, l, length-answers cs))
