-- ===== src/Metrics/Departures.antt =====
-- `_NodeCloseTracker` of aerospike_sdk/metrics/export.py: the hosts that have left the cluster.
use aerospike_client_python.Base.{
  ℕ, ◌+◌, ◌≤◌, Bool, true, false, not, ◌&&◌, ◌||◌, any, keep, String, str_eq, eq_iff, List, [], ◌∷◌,
  ◌++◌, ◌↔◌, ◌≡◌, refl, sym, ap, Bool-cases, inl, inr, if◌then◌else◌, arith,
}

-- `host in hosts`
abbrev pub is_in : String → List String → Bool
is_in h hosts = any (str_eq h) hosts

abbrev pub is_gone : List String → List String → String → Bool
is_gone live closed h = not (is_in h live) && not (is_in h closed)

-- The hosts reported, and the tracker's set after the call.
unfoldable pub departed : List String → List String → List String → List String × List String
departed closed snapshot live =
    let gone = keep (is_gone live closed) snapshot in (gone, closed ++ gone)

-- A call: the hosts of a snapshot, and the live ones.
abbrev pub Call : Type 0
Call = List String × List String

-- All the hosts that a sequence of calls reports.
unfoldable pub reports : List String → List Call → List String
unfolding departed
reports closed [] = []
reports closed ((snapshot, live) ∷ calls) =
    let r = departed closed snapshot live in r.0 ++ reports (r.1) calls

abbrev pub count : String → List String → ℕ
count h [] = 0
count h (x ∷ xs) = (if str_eq h x then 1 else 0) + count h xs

-- A call whose snapshot has the host while the cluster does not.
abbrev pub shows_departure : String → Call → Bool
shows_departure h (snapshot, live) = is_in h snapshot && not (is_in h live)

-- A snapshot names a host once.
abbrev pub IsOnce : List Call → Type 0
IsOnce [] = Unit
IsOnce ((snapshot, live) ∷ calls) = ((h : String) → count h snapshot ≤ 1) × IsOnce calls

count-append : (h : String) (xs ys : List String) → count h (xs ++ ys) ≡ count h xs + count h ys
count-append h [] ys = omega arith
count-append h (x ∷ xs) ys = omega (arith, count-append h xs ys)

is_in-append : (h : String) (xs ys : List String) → is_in h (xs ++ ys) ≡ (is_in h xs || is_in h ys)
is_in-append h [] ys = refl
is_in-append h (x ∷ xs) ys = ground (arith, is_in-append h xs ys)

module _ (p : String → Bool) (h : String) where
  at_host : (x : String) → str_eq h x ≡ true → p x ≡ p h
  at_host x e = ap p (sym ((eq_iff h x).0 e))

  count-keep : (xs : List String) → count h (keep p xs) ≡ (if p h then count h xs else 0)
  count-keep [] = elim (Bool-cases (p h)) [ inl q ↦ rw q refl | inr q ↦ rw q refl ]
  count-keep (x ∷ xs) = elim (Bool-cases (str_eq h x)) [
    | inl e ↦ ground (arith, e, at_host x e, count-keep xs)
    | inr e ↦ ground (arith, e, count-keep xs)
  ]

  is_in-keep : (xs : List String) → is_in h (keep p xs) ≡ (p h && is_in h xs)
  is_in-keep [] = ground arith
  is_in-keep (x ∷ xs) = elim (Bool-cases (str_eq h x)) [
    | inl e ↦ ground (arith, e, at_host x e, is_in-keep xs)
    | inr e ↦ ground (arith, e, is_in-keep xs)
  ]

count-is_in : (h : String) (xs : List String) → (count h xs ≡ 0) ↔ (is_in h xs ≡ false)
count-is_in h [] = ground arith
count-is_in h (x ∷ xs) = ground (arith, count-is_in h xs)

count-once :
    (h : String) (xs : List String) → count h xs ≤ 1 → count h xs ≡ (if is_in h xs then 1 else 0)
count-once h xs l = ground (arith, count-is_in h xs)

-- From a set of hosts already reported, a host is reported once if it is not in the set and some
-- call shows its departure.
count-reports :
    (h : String) (closed : List String) (calls : List Call)
    → IsOnce calls
    → count h (reports closed calls)
      ≡ (if not (is_in h closed) && any (shows_departure h) calls then 1 else 0)
unfolding reports departed
count-reports h closed [] o = ground arith
count-reports h closed ((snapshot, live) ∷ calls) o =
    let gone = keep (is_gone live closed) snapshot in
    ground (
      arith,
      count-append h gone (reports (closed ++ gone) calls),
      count-reports h (closed ++ gone) calls (o.1),
      is_in-append h closed gone,
      is_in-keep (is_gone live closed) h snapshot,
      count-keep (is_gone live closed) h snapshot,
      count-once h snapshot (o.0 h),
    )

-- Over any sequence of snapshots that each name a host at most once, a host is reported exactly
-- once if some snapshot has it while the cluster does not, and never otherwise.
pub reports-once :
    (h : String) (calls : List Call)
    → IsOnce calls
    → count h (reports [] calls) ≡ (if any (shows_departure h) calls then 1 else 0)
reports-once h calls o = count-reports h [] calls o
