-- ===== src/Metrics/Usage.antt =====
-- `UsageCounters` of aerospike_sdk/metrics/usage.py: counters that each thread keeps, merged when
-- they are read.
pub mod Laws
use aerospike_client_python.Base.{
  ℕ, zero, suc, ◌+◌, Bool, ◌==◌, String, str_eq, Option, none, some, List, [], ◌∷◌, if◌then◌else◌,
}
use aerospike_client_python.Base.Dict.{get, put}

-- The counts of one thread, or of the threads that have gone.
abbrev pub Counts : Type 0
Counts = List (String × ℕ)

abbrev pub or_zero : Option ℕ → ℕ
or_zero none = 0
or_zero (some n) = n

-- `counts.get(feature, 0)`
abbrev pub count_of : String → Counts → ℕ
count_of feature counts = or_zero (get str_eq feature counts)

-- The buckets of the live threads, by thread, and `_retired`.
pub record UsageCounters : Type 0 where
  pub buckets : List (ℕ × Counts)
  pub retired : Counts

abbrev pub new_counters : UsageCounters
new_counters = record { buckets = []; retired = [] }

abbrev pub or_empty : Option Counts → Counts
or_empty none = []
or_empty (some counts) = counts

-- `_bucket`: the counts of a thread, none before its first call.
abbrev pub bucket : ℕ → UsageCounters → Counts
bucket thread u = or_empty (get ◌==◌ thread u.buckets)

abbrev pub increment_each : List String → Counts → Counts
increment_each [] counts = counts
increment_each (f ∷ features) counts =
    increment_each features (put str_eq f (suc (count_of f counts)) counts)

-- `counts[feature] = counts.get(feature, 0) + count` for each item of another.
unfoldable pub fold_into : Counts → Counts → Counts
fold_into counts [] = counts
fold_into counts ((f, n) ∷ rest) = fold_into (put str_eq f (count_of f counts + n) counts) rest

unfoldable pub add : ℕ → List String → UsageCounters → UsageCounters
add thread features u = record u {
  buckets = put ◌==◌ thread (increment_each features (bucket thread u)) u.buckets;
}

-- The entry of a thread is dropped: a thread has one.
unfoldable pub without : ℕ → List (ℕ × Counts) → List (ℕ × Counts)
without thread [] = []
without thread ((t, counts) ∷ rest) =
    let others = without thread rest in if thread == t then rest else (t, counts) ∷ others

-- `_retire`, when the bucket of a thread is reclaimed.
unfoldable pub retire : ℕ → UsageCounters → UsageCounters
unfolding fold_into without
retire thread u = record {
  buckets = without thread u.buckets;
  retired = fold_into u.retired (bucket thread u);
}

abbrev pub merge_all : Counts → List (ℕ × Counts) → Counts
unfolding fold_into
merge_all merged [] = merged
merge_all merged ((_, counts) ∷ rest) = merge_all (fold_into merged counts) rest

unfoldable pub totals : UsageCounters → Counts
unfolding fold_into
totals u = merge_all u.retired u.buckets

-- What happens to the counters: a thread counts a call's features, or is gone.
pub data Event : Type 0 where
  adds : ℕ → List String → Event
  leaves : ℕ → Event

unfoldable pub after_event : Event → UsageCounters → UsageCounters
unfolding add retire
after_event (adds thread features) u = add thread features u
after_event (leaves thread) u = retire thread u

unfoldable pub after_events : List Event → UsageCounters → UsageCounters
unfolding after_event
after_events [] u = u
after_events (e ∷ es) u = after_events es (after_event e u)
