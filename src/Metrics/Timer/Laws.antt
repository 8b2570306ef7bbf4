-- ===== src/Metrics/Timer/Laws.antt =====
-- The export timer of aerospike_sdk/metrics/export.py against one machine for each exporter.
use aerospike_client_python.Base.{
  ℕ, Bool, true, false, not, ◌&&◌, ◌||◌, ◌==◌, ==_iff, is_some, String, Option, none, some, List,
  [], ◌∷◌, ◌≡◌, refl, sym, fun_ext, ap, ◌∙◌, Bool-cases, Option-cases, inl, inr, if◌then◌else◌,
  arith,
}
use aerospike_client_python.Base.Dict.{get, put, get-put}
use aerospike_client_python.Metrics.Health.{
  Health, new_health, should_attempt, succeed, fail, settle, cycle,
}
use aerospike_client_python.Metrics.Timer.{
  Healths, Timer, is_among, or_new, health_of, prune, attempt_each, exporters_to_run, Cycle, take,
  record_success, record_failure, deliver, export_once, snapshot_for, take_for, delivered,
}

-- No exporter stands twice.
abbrev pub distinct : List ℕ → Bool
distinct [] = true
distinct (e ∷ es) = not (is_among e es) && distinct es

health_of-put :
    (k e : ℕ) (h : Health) (d : Healths)
    → health_of k (put ◌==◌ e h d) ≡ (if k == e then h else health_of k d)
health_of-put k e h d = ap or_new (get-put ◌==◌ ==_iff k e h d) ∙ go (k == e)
  where
    go : (b : Bool) → or_new (if b then some h else get ◌==◌ k d) ≡ (if b then h else health_of k d)
    go true = refl
    go false = refl

same : (P : ℕ → Health) (k e : ℕ) → (k == e) ≡ true → P e ≡ P k
same P k e p = ap P (sym ((==_iff k e).0 p))

and_split : (a b : Bool) → (not a && b) ≡ true → (a ≡ false) × (b ≡ true)
and_split true b h = absurd (cc h)
and_split false b h = (refl, h)

pub health_of-prune :
    (k : ℕ) (ids : List ℕ) (d : Healths)
    → health_of k (prune ids d) ≡ (if is_among k ids then health_of k d else new_health)
unfolding prune
health_of-prune k ids [] = elim (Bool-cases (is_among k ids)) [
  | inl p ↦ rw p refl
  | inr p ↦ rw p refl
]
health_of-prune k ids ((e, h) ∷ d) = elim (Bool-cases (k == e)) [
  | inl p ↦
      let twin : is_among e ids ≡ is_among k ids =
        ap (λ i. is_among i ids) (sym ((==_iff k e).0 p)) in
      elim (Bool-cases (is_among k ids)) [
        | inl m ↦ rw (twin ∙ m, m, p) refl
        | inr m ↦ rw (twin ∙ m, m) (rw m at (health_of-prune k ids d))
      ]
  | inr p ↦ elim (Bool-cases (is_among e ids)) [
    | inl m ↦ rw (m, p) (health_of-prune k ids d)
    | inr m ↦ rw (m, p) (health_of-prune k ids d)
  ]
]

record_success-none : (e : ℕ) (d : Healths) → get ◌==◌ e d ≡ none → record_success e d ≡ d
unfolding record_success
record_success-none e d q = rw (q, record_success) refl

record_success-some :
    (e : ℕ) (h : Health) (d : Healths)
    → get ◌==◌ e d ≡ some h
    → record_success e d ≡ put ◌==◌ e (succeed h) d
unfolding record_success
record_success-some e h d q = rw (q, record_success) refl

health_of-record_success :
    (k e : ℕ) (d : Healths)
    → health_of k (record_success e d) ≡ (if k == e then succeed (health_of k d) else health_of k d)
unfolding succeed
health_of-record_success k e d = elim (Bool-cases (k == e)) [
  | inl p ↦
      let twin : get ◌==◌ e d ≡ get ◌==◌ k d = ap (λ i. get ◌==◌ i d) (sym ((==_iff k e).0 p)) in
      elim (Option-cases (get ◌==◌ k d)) [
        | inl q ↦ rw (record_success-none e d (twin ∙ q), p, q) refl
        | inr q ↦
            rw (record_success-some e q.0 d (twin ∙ q.1), p)
              (health_of-put k e (succeed (q.0)) d ∙ rw p refl)
      ]
  | inr p ↦ elim (Option-cases (get ◌==◌ e d)) [
    | inl q ↦ rw (record_success-none e d q, p) refl
    | inr q ↦
        rw (record_success-some e q.0 d q.1, p) (health_of-put k e (succeed (q.0)) d ∙ rw p refl)
  ]
]

health_of-record_failure :
    (k e : ℕ) (d : Healths)
    → health_of k (record_failure e d) ≡ (if k == e then fail (health_of k d) else health_of k d)
unfolding record_failure
health_of-record_failure k e d =
    health_of-put k e (fail (health_of e d)) d ∙ elim (Bool-cases (k == e)) [
      | inl p ↦ rw (p, same (λ i. health_of i d) k e p) refl
      | inr p ↦ rw p refl
    ]

is_among-if :
    (k e : ℕ) (b : Bool) (es : List ℕ)
    → is_among k (if b then e ∷ es else es) ≡ ((b && (k == e)) || is_among k es)
is_among-if k e true es = refl
is_among-if k e false es = refl

called :
    (here x rest among later now : Bool)
    → here ≡ true
    → among ≡ false
    → rest ≡ (among && later)
    → x ≡ now
    → ((x && here) || rest) ≡ ((here || among) && now)
called here x rest among later now p q r s = ground arith

passed :
    (here x rest among now : Bool)
    → here ≡ false
    → rest ≡ (among && now)
    → ((x && here) || rest) ≡ ((here || among) && now)
passed here x rest among now p r = ground arith

pub health_of-attempt_each :
    (k : ℕ) (es : List ℕ) (d : Healths)
    → distinct es ≡ true
    → (health_of k (attempt_each es d).1
        ≡ (if is_among k es then (should_attempt (health_of k d)).1 else health_of k d))
      × (is_among k (attempt_each es d).0 ≡ (is_among k es && (should_attempt (health_of k d)).0))
unfolding attempt_each
health_of-attempt_each k [] d u = (refl, refl)
health_of-attempt_each k (e ∷ es) d u =
    let x = should_attempt (health_of e d) in
    let split : (is_among e es ≡ false) × (distinct es ≡ true) =
      and_split (is_among e es) (distinct es) u in
    let put_here = health_of-put k e (x.1) d in
    let ih = health_of-attempt_each k es (put ◌==◌ e (x.1) d) (split.1) in
    elim (Bool-cases (k == e)) [
      | inl p ↦
          let twin : health_of e d ≡ health_of k d = same (λ i. health_of i d) k e p in
          let once : is_among k es ≡ false = ap (λ i. is_among i es) ((==_iff k e).0 p) ∙ split.0 in
          let here : health_of k (put ◌==◌ e x.1 d) ≡ (should_attempt (health_of k d)).1 =
            put_here ∙ rw p (ap (λ h. (should_attempt h).1) twin) in
          let among : x.0 ≡ (should_attempt (health_of k d)).0 =
            ap (λ h. (should_attempt h).0) twin in
          (
            ih.0 ∙ rw (once, p) here,
            is_among-if k e (x.0) (attempt_each es (put ◌==◌ e x.1 d)).0
                ∙ called (k == e) (x.0) (is_among k (attempt_each es (put ◌==◌ e x.1 d)).0)
                    (is_among k es) ((should_attempt (health_of k (put ◌==◌ e x.1 d))).0)
                    ((should_attempt (health_of k d)).0) p once (ih.1) among,
          )
      | inr p ↦
          let there : health_of k (put ◌==◌ e x.1 d) ≡ health_of k d = put_here ∙ rw p refl in
          (
            ih.0 ∙ rw (p, there) refl,
            is_among-if k e (x.0) (attempt_each es (put ◌==◌ e x.1 d)).0
                ∙ passed (k == e) (x.0) (is_among k (attempt_each es (put ◌==◌ e x.1 d)).0)
                    (is_among k es) ((should_attempt (health_of k d)).0) p (ih.1 ∙ rw there refl),
          )
    ]

health_of-recorded :
    (k e : ℕ) (fails : ℕ → Bool) (d : Healths)
    → health_of k (if fails e then record_failure e d else record_success e d)
      ≡ (if k == e then settle (fails k) (health_of k d) else health_of k d)
health_of-recorded k e fails d = elim (Bool-cases (k == e)) [
  | inl p ↦
      let twin : fails k ≡ fails e = ap fails ((==_iff k e).0 p) in
      elim (Bool-cases (fails e)) [
        | inl f ↦ rw (p, twin ∙ f, f) (health_of-record_failure k e d ∙ rw p refl)
        | inr f ↦ rw (p, twin ∙ f, f) (health_of-record_success k e d ∙ rw p refl)
      ]
  | inr p ↦ elim (Bool-cases (fails e)) [
    | inl f ↦ rw (p, f) (health_of-record_failure k e d ∙ rw p refl)
    | inr f ↦ rw (p, f) (health_of-record_success k e d ∙ rw p refl)
  ]
]

health_of-deliver :
    (k : ℕ) (fails : ℕ → Bool) (es : List ℕ) (d : Healths)
    → distinct es ≡ true
    → health_of k (deliver fails es d)
      ≡ (if is_among k es then settle (fails k) (health_of k d) else health_of k d)
unfolding deliver
health_of-deliver k fails [] d u = refl
health_of-deliver k fails (e ∷ es) d u =
    let split = and_split (is_among e es) (distinct es) u in
    let recorded = health_of-recorded k e fails d in
    let ih =
      health_of-deliver k fails es (if fails e then record_failure e d else record_success e d)
        (split.1) in
    elim (Bool-cases (k == e)) [
      | inl p ↦
          let once : is_among k es ≡ false = ap (λ i. is_among i es) ((==_iff k e).0 p) ∙ split.0 in
          ih ∙ rw (once, p) (recorded ∙ rw p refl)
      | inr p ↦
          let there : health_of k (if fails e then record_failure e d else record_success e d)
              ≡ health_of k d =
            recorded ∙ rw p refl in
          ih ∙ rw (p, there) refl
    ]

distinct-attempt_each :
    (es : List ℕ) (d : Healths) → distinct es ≡ true → distinct (attempt_each es d).0 ≡ true
unfolding attempt_each
distinct-attempt_each [] d u = refl
distinct-attempt_each (e ∷ es) d u =
    let split = and_split (is_among e es) (distinct es) u in
    let x = should_attempt (health_of e d) in
    let rest = distinct-attempt_each es (put ◌==◌ e (x.1) d) (split.1) in
    let absent : is_among e (attempt_each es (put ◌==◌ e (x.1) d)).0 ≡ false =
      (health_of-attempt_each e es (put ◌==◌ e (x.1) d) (split.1)).1 ∙ rw (split.0) refl in
    elim (Bool-cases (x.0)) [ inl p ↦ rw (p, absent) rest | inr p ↦ rw p rest ]

-- One machine for each exporter: outside the targets it is forgotten, and in a cycle whose snapshot
-- raises no export is made.
abbrev pub machine : Cycle → (ℕ → Health) → ℕ → Health
machine c view e =
    if is_among e c.targets
    then if is_some c.snapshot then (cycle (c.fails e) (view e)).1 else (should_attempt (view e)).1
    else new_health

-- What a cycle leaves of an exporter's health, from what `exporters_to_run` has left.
abbrev settled : Bool → Bool → Bool → Health → Health
settled taken among fails h = if taken then if among then settle fails h else h else h

health_of-take_for :
    (c : Cycle) (e : ℕ) (closed : List String) (runnable : List ℕ) (d : Healths)
    → distinct runnable ≡ true
    → health_of e (delivered c (take_for c closed runnable d)).healths
      ≡ settled (is_some c.snapshot) (is_among e runnable) (c.fails e) (health_of e d)
unfolding delivered snapshot_for
health_of-take_for c e closed [] d u = elim (Bool-cases (is_some c.snapshot)) [
  | inl p ↦ rw p refl
  | inr p ↦ rw p refl
]
health_of-take_for c e closed (x ∷ xs) d u = go c.snapshot
  where
    go :
        (s : Option (List String × List String))
        → health_of e (delivered c (snapshot_for s closed d (x ∷ xs))).healths
          ≡ settled (is_some s) (is_among e (x ∷ xs)) (c.fails e) (health_of e d)
    go none = refl
    go (some hosts) = health_of-deliver e c.fails (x ∷ xs) d u

machine_lem :
    (taken among target fails : Bool) (after pruned before : Health)
    → pruned ≡ (if target then before else new_health)
    → after ≡ (if target then (should_attempt pruned).1 else pruned)
    → among ≡ (target && (should_attempt pruned).0)
    → settled taken among fails after ≡ (
        if target
        then if taken then (cycle fails before).1 else (should_attempt before).1
        else new_health)
unfolding cycle
machine_lem taken among true fails after pruned before p q r = rw (q, r, p) refl
machine_lem true among false fails after pruned before p q r = rw (q, r, p) refl
machine_lem false among false fails after pruned before p q r = q ∙ p

pub health_of-export_once :
    (c : Cycle) (t : Timer) (e : ℕ)
    → distinct c.targets ≡ true
    → health_of e (export_once c t).healths ≡ machine c (λ i. health_of i t.healths) e
unfolding export_once take exporters_to_run
health_of-export_once c t e u =
    let d = prune c.targets t.healths in
    let r = attempt_each c.targets d in
    let attempted = health_of-attempt_each e c.targets d u in
    health_of-take_for c e t.closed (r.0) (r.1) (distinct-attempt_each c.targets d u)
    ∙ machine_lem (is_some c.snapshot) (is_among e (r.0)) (is_among e c.targets) (c.fails e)
        (health_of e (r.1)) (health_of e d) (health_of e t.healths)
        (health_of-prune e c.targets t.healths) (attempted.0) (attempted.1)

-- The timer after a sequence of cycles, and the machines after it.
unfoldable pub run : List Cycle → Timer → Timer
unfolding export_once
run [] t = t
run (c ∷ cs) t = run cs (export_once c t)

abbrev pub machines : List Cycle → (ℕ → Health) → ℕ → Health
machines [] view = view
machines (c ∷ cs) view = machines cs (machine c view)

-- In every cycle no exporter stands twice among the targets.
abbrev pub IsDistinct : List Cycle → Type 0
IsDistinct [] = Unit
IsDistinct (c ∷ cs) = (distinct c.targets ≡ true) × IsDistinct cs

-- Over any sequence of cycles in whose targets no exporter stands twice, which registering one twice
-- would break, the healths that a timer keeps in one dictionary are those of one machine for each
-- exporter: none is lost, shared or changed by the exports of another.
pub health_of-run :
    (cs : List Cycle) (t : Timer)
    → IsDistinct cs
    → (λ e. health_of e (run cs t).healths) ≡ machines cs (λ e. health_of e t.healths)
unfolding run
health_of-run [] t u = refl
health_of-run (c ∷ cs) t u =
    health_of-run cs (export_once c t) (u.1)
    ∙ ap (machines cs) (fun_ext (λ e. health_of-export_once c t e (u.0)))
