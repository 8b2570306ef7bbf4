-- ===== src/Metrics/Health/Laws.antt =====
-- When an exporter of aerospike_sdk/metrics/export.py is suspended, and when it is called again.
use aerospike_client_python.Base.{
  ℕ, suc, ◌+◌, ◌≤◌, ◌<◌, Bool, true, false, leb, List, [], ◌∷◌, length, any, ◌≡◌, refl, sym, subst,
  Bool-cases, inl, inr, if◌then◌else◌, arith,
}
use aerospike_client_python.Metrics.Health.{
  Health, new_health, should_attempt, succeed, fail, cycle,
}

-- The exports that fail, since the last that did not; newest first.
abbrev pub streak : List Bool → ℕ
streak [] = 0
streak (fails ∷ history) = if fails then suc (streak history) else 0

abbrev pub extend : Bool → Bool → List Bool → List Bool
extend called fails history = if called then fails ∷ history else history

-- The health that some cycles lead to, with the outcomes of the exports that they made.
pub data Reached : Health → List Bool → Type 0 where
  new : Reached new_health []
  by_cycle :
      {h : Health} {history : List Bool}
      → Reached h history
      → (fails : Bool) → Reached (cycle fails h).1 (extend (cycle fails h).0 fails history)

-- The health tells the streak of failures.
abbrev IsStreak : Health → List Bool → Type 0
IsStreak h history =
    (h.failures ≡ streak history) × (h.suspended ≡ leb 3 (streak history)) × (h.skipped < 10)

cycle-IsStreak :
    (failures : ℕ) (suspended : Bool) (skipped : ℕ) (history : List Bool) (fails : Bool)
    → let h : Health = record { failures = failures; suspended = suspended; skipped = skipped } in
      IsStreak h history → IsStreak (cycle fails h).1 (extend (cycle fails h).0 fails history)
unfolding cycle should_attempt succeed fail
cycle-IsStreak n false k history true s = elim (Bool-cases (leb 3 (suc n))) [
  | inl p ↦ rw p (ground arith, ground arith, ground arith)
  | inr p ↦ rw p (ground arith, ground arith, ground arith)
]
cycle-IsStreak n false k history false s = (refl, ground arith, ground arith)
cycle-IsStreak n true k history true s = elim (Bool-cases (leb 10 (suc k))) [
  | inl p ↦ rw p (ground arith, ground arith, ground arith)
  | inr p ↦ rw p (s.0, s.1, ground arith)
]
cycle-IsStreak n true k history false s = elim (Bool-cases (leb 10 (suc k))) [
  | inl p ↦ rw p (refl, ground arith, ground arith)
  | inr p ↦ rw p (s.0, s.1, ground arith)
]

-- Whatever the exports answered, an exporter is suspended exactly when the last three of them or
-- more have failed, its count of failures is their number since the last success, and it has been
-- skipped fewer than ten times.
pub Reached-streak :
    {h : Health} {history : List Bool}
    → Reached h history
    → (h.failures ≡ streak history) × (h.suspended ≡ leb 3 (streak history)) × (h.skipped < 10)
Reached-streak new = (refl, refl, omega arith)
Reached-streak (by_cycle {h} {history} r fails) =
    cycle-IsStreak h.failures h.suspended h.skipped history fails (Reached-streak r)

-- The cycles of a sequence in which the exporter is called.
unfoldable pub calls : Health → List Bool → List Bool
unfolding cycle
calls h [] = []
calls h (fails ∷ rest) = let r = cycle fails h in r.0 ∷ calls (r.1) rest

abbrev pub id : Bool → Bool
id b = b

called_soon :
    (h : Health) (answers : List Bool)
    → 1 ≤ length answers
    → 10 ≤ h.skipped + length answers
    → any id (calls h answers) ≡ true
unfolding calls cycle should_attempt
called_soon h [] l m = absurd (omega (arith, l))
called_soon h (fails ∷ answers) l m = elim (Bool-cases h.suspended) [
  | inl p ↦ elim (Bool-cases (leb 10 (suc h.skipped))) [
    | inl q ↦ rw (p, q) refl
    | inr q ↦
        rw (p, q)
          (called_soon (record h { suspended = true; skipped = suc h.skipped }) answers
            (ground arith) (omega (arith, m)))
  ]
  | inr p ↦ rw p refl
]

-- Whatever its health and whatever the exports answer, an exporter is called in one of any ten
-- consecutive cycles.
pub calls-within_ten :
    (h : Health) (answers : List Bool) → 10 ≤ length answers → any id (calls h answers) ≡ true
calls-within_ten h answers l = called_soon h answers (omega (arith, l)) (omega (arith, l))

-- The health after a sequence of cycles.
unfoldable pub health_after : Health → List Bool → Health
unfolding cycle
health_after h [] = h
health_after h (fails ∷ rest) = health_after (cycle fails h).1 rest

cycle-skipped :
    (h : Health) (fails : Bool)
    → h.suspended ≡ true
    → leb 10 (suc h.skipped) ≡ false
    → cycle fails h ≡ (false, record h { skipped = suc h.skipped })
unfolding cycle should_attempt
cycle-skipped h fails s q = rw (s, q) refl

silent :
    (h : Health) (answers : List Bool)
    → h.suspended ≡ true
    → h.skipped + length answers ≤ 9
    → (any id (calls h answers) ≡ false)
      × ((health_after h answers).suspended ≡ true)
      × ((health_after h answers).skipped ≡ h.skipped + length answers)
unfolding calls health_after
silent h [] s l = (refl, s, omega arith)
silent h (fails ∷ answers) s l =
    let q : leb 10 (suc h.skipped) ≡ false = ground arith in
    let ih = silent (record h { skipped = suc h.skipped }) answers s (omega (arith, l)) in
    subst
      (λ r.
        (any id (r.0 ∷ calls r.1 answers) ≡ false)
        × ((health_after r.1 answers).suspended ≡ true)
        × ((health_after r.1 answers).skipped ≡ h.skipped + suc (length answers)))
      (sym (cycle-skipped h fails s q)) (ih.0, ih.1, omega (arith, ih.2))

-- A suspended exporter whose retry has just been made is left alone for nine cycles and called in
-- the tenth.
pub calls-retry :
    (h : Health) (answers : List Bool)
    → h.suspended ≡ true
    → h.skipped ≡ 0
    → length answers ≡ 9
    → (any id (calls h answers) ≡ false) × ((should_attempt (health_after h answers)).0 ≡ true)
unfolding should_attempt
calls-retry h answers s z l =
    let quiet = silent h answers s (omega (arith, z, l)) in
    let due : leb 10 (suc (health_after h answers).skipped) ≡ true =
      ground (arith, quiet.2, z, l) in
    (quiet.0, rw (quiet.1, due) refl)
