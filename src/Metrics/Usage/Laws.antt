-- ===== src/Metrics/Usage/Laws.antt =====
-- The totals of the usage counters in aerospike_sdk/metrics/usage.py, against one shared counter.
use aerospike_client_python.Base.{
  ℕ, suc, ◌+◌, Bool, true, false, ◌==◌, String, str_eq, eq_iff, some, List, [], ◌∷◌, ◌≡◌, refl, sym,
  ap, ◌∙◌, Bool-cases, inl, inr, if◌then◌else◌, arith,
}
use aerospike_client_python.Base.Dict.{get, put, get-put}
use aerospike_client_python.Metrics.Usage.{
  Counts, count_of, UsageCounters, new_counters, bucket, increment_each, fold_into, add, without,
  retire, merge_all, totals, Event, adds, leaves, after_event, after_events, or_zero, or_empty,
}

-- A key stands once in a dictionary.
-- How often a feature stands in a list.
abbrev pub occurrences : String → List String → ℕ
occurrences f [] = 0
occurrences f (g ∷ gs) = (if str_eq f g then 1 else 0) + occurrences f gs

-- One shared counter of a feature.
abbrev pub shared : String → List Event → ℕ
shared f [] = 0
shared f (adds thread features ∷ es) = occurrences f features + shared f es
shared f (leaves thread ∷ es) = shared f es

-- The sum of a feature's entries in a dictionary.
abbrev pub sum_of : String → Counts → ℕ
sum_of f [] = 0
sum_of f ((g, n) ∷ d) = (if str_eq f g then n else 0) + sum_of f d

count_of-put :
    (f g : String) (n : ℕ) (d : Counts)
    → count_of f (put str_eq g n d) ≡ (if str_eq f g then n else count_of f d)
count_of-put f g n d = ap or_zero (get-put str_eq eq_iff f g n d) ∙ go (str_eq f g)
  where
    go :
        (b : Bool)
        → or_zero (if b then some n else get str_eq f d) ≡ (if b then n else count_of f d)
    go true = refl
    go false = refl

count_of-fold_into :
    (f : String) (d rest : Counts) → count_of f (fold_into d rest) ≡ count_of f d + sum_of f rest
unfolding fold_into
count_of-fold_into f d [] = omega arith
count_of-fold_into f d ((g, n) ∷ rest) =
    let ih = count_of-fold_into f (put str_eq g (count_of g d + n) d) rest in
    let written = count_of-put f g (count_of g d + n) d in
    elim (Bool-cases (str_eq f g)) [
      | inl p ↦
          let twin : count_of g d ≡ count_of f d =
            ap (λ x. count_of x d) (sym ((eq_iff f g).0 p)) in
          ground (arith, ih, written, p, twin)
      | inr p ↦ ground (arith, ih, written, p)
    ]

-- Adding one to the entry that is read adds one to the sum.
sum_of-put :
    (f g : String) (m : ℕ) (d : Counts)
    → m ≡ suc (count_of g d)
    → sum_of f (put str_eq g m d) ≡ (if str_eq f g then 1 else 0) + sum_of f d
sum_of-put f g m [] h = elim (Bool-cases (str_eq f g)) [
  | inl p ↦ rw p (omega (arith, h))
  | inr p ↦ rw p (omega arith)
]
sum_of-put f g m ((k, n) ∷ d) h = elim (Bool-cases (str_eq g k)) [
  | inl p ↦
      let twin : str_eq f g ≡ str_eq f k = ap (str_eq f) ((eq_iff g k).0 p) in
      let next : m ≡ suc n = rw p at (h) in rw (p, twin) (ground (arith, next))
  | inr p ↦ rw p (omega (arith, sum_of-put f g m d (rw p at (h))))
]

sum_of-increment_each :
    (f : String) (features : List String) (d : Counts)
    → sum_of f (increment_each features d) ≡ occurrences f features + sum_of f d
sum_of-increment_each f [] d = omega arith
sum_of-increment_each f (g ∷ gs) d =
    let ih = sum_of-increment_each f gs (put str_eq g (suc (count_of g d)) d) in
    omega (arith, ih, sum_of-put f g (suc (count_of g d)) d refl)

-- A feature's count over the buckets.
abbrev pub over_buckets : String → List (ℕ × Counts) → ℕ
over_buckets f [] = 0
over_buckets f ((_, counts) ∷ rest) = sum_of f counts + over_buckets f rest

abbrev pub bucket_in : ℕ → List (ℕ × Counts) → Counts
bucket_in thread buckets = or_empty (get ◌==◌ thread buckets)

over_buckets-put :
    (f : String) (thread n : ℕ) (counts : Counts) (buckets : List (ℕ × Counts))
    → sum_of f counts ≡ n + sum_of f (bucket_in thread buckets)
    → over_buckets f (put ◌==◌ thread counts buckets) ≡ n + over_buckets f buckets
over_buckets-put f thread n counts [] h = omega (arith, h)
over_buckets-put f thread n counts ((t, c) ∷ rest) h = elim (Bool-cases (thread == t)) [
  | inl p ↦ rw p (omega (arith, rw p at (h)))
  | inr p ↦ rw p (omega (arith, over_buckets-put f thread n counts rest (rw p at (h))))
]

over_buckets-without :
    (f : String) (thread : ℕ) (buckets : List (ℕ × Counts))
    → over_buckets f (without thread buckets) + sum_of f (bucket_in thread buckets)
      ≡ over_buckets f buckets
unfolding without
over_buckets-without f thread [] = refl
over_buckets-without f thread ((t, c) ∷ rest) = elim (Bool-cases (thread == t)) [
  | inl p ↦ rw p (omega arith)
  | inr p ↦ rw p (omega (arith, over_buckets-without f thread rest))
]

-- What the counters hold of a feature.
abbrev level : String → UsageCounters → ℕ
level f u = count_of f u.retired + over_buckets f u.buckets

count_of-merge_all :
    (f : String) (merged : Counts) (buckets : List (ℕ × Counts))
    → count_of f (merge_all merged buckets) ≡ count_of f merged + over_buckets f buckets
unfolding merge_all
count_of-merge_all f merged [] = omega arith
count_of-merge_all f merged ((t, c) ∷ rest) =
    omega (arith, count_of-merge_all f (fold_into merged c) rest, count_of-fold_into f merged c)

level-after_event :
    (f : String) (e : Event) (u : UsageCounters)
    → level f (after_event e u) ≡ shared f (e ∷ []) + level f u
unfolding after_event add retire
level-after_event f (adds thread features) u = omega (
  arith,
  over_buckets-put f thread (occurrences f features) (increment_each features (bucket thread u))
      u.buckets (sum_of-increment_each f features (bucket thread u)),
)
level-after_event f (leaves thread) u = omega (
  arith,
  count_of-fold_into f u.retired (bucket thread u),
  over_buckets-without f thread u.buckets,
)

shared_cons :
    (f : String) (e : Event) (es : List Event) → shared f (e ∷ es) ≡ shared f (e ∷ []) + shared f es
shared_cons f (adds thread features) es = omega arith
shared_cons f (leaves thread) es = omega arith

level-after_events :
    (f : String) (es : List Event) (u : UsageCounters)
    → level f (after_events es u) ≡ shared f es + level f u
unfolding after_events
level-after_events f [] u = omega arith
level-after_events f (e ∷ es) u =
    omega (
      arith,
      level-after_events f es (after_event e u),
      level-after_event f e u,
      shared_cons f e es,
    )

-- Whatever threads count features and go, in any order, the totals of every feature are those of
-- one counter that all the threads share: no count is lost when a thread goes, and none is taken
-- twice.
pub totals-after_events :
    (f : String) (es : List Event)
    → count_of f (totals (after_events es new_counters)) ≡ shared f es
unfolding totals
totals-after_events f es =
    let u = after_events es new_counters in
    omega (arith, count_of-merge_all f u.retired u.buckets, level-after_events f es new_counters)
