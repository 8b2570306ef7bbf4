-- ===== src/Txn/Plan.antt =====
-- `resolve_retry_plan` of aerospike_sdk/txn_shared.py.
use aerospike_client_python.Base.{
  ℕ, zero, suc, ◌≡◌, refl, ap, ◌⊎◌, inl, inr, ℤ, pos, negsuc, Bool, true, false, Option, none, some,
  arith, if◌then◌else◌,
}
use aerospike_client_python.Base.Int.{ltb_ℤ}

-- `TransactionSettings`, or what stands for it; a missing attribute reads as `None`. `Seconds` is
-- Python's float.
pub record TransactionSettings (Seconds : Type 0) : Type 0 where
  pub number_of_attempts : Option ℤ
  pub sleep_between_attempts : Option Seconds

-- A plan, or the `ValueError` for `max_attempts`.
pub data Plan (Seconds : Type 0) : Type 0 where
  plan : ℤ → Seconds → Plan Seconds
  bad_max_attempts : Plan Seconds

module _ {Seconds : Type 0} (default_sleep_seconds : Seconds) where
  -- `DEFAULT_ATTEMPTS`
  abbrev pub default_attempts : ℤ
  default_attempts = pos 10

  abbrev at_least_one : Option ℤ → ℤ
  at_least_one none = default_attempts
  at_least_one (some n) = if ltb_ℤ n (pos 1) then default_attempts else n

  abbrev attempts_of : Option ℤ → TransactionSettings Seconds → ℤ
  attempts_of none t = at_least_one t.number_of_attempts
  attempts_of (some n) t = at_least_one (some n)

  abbrev pub sleep_of : Option Seconds → TransactionSettings Seconds → Seconds
  sleep_of (some s) t = s
  sleep_of none t = elim t.sleep_between_attempts [ none ↦ default_sleep_seconds | some s ↦ s ]

  abbrev below_one : Option ℤ → Bool
  below_one none = false
  below_one (some n) = ltb_ℤ n (pos 1)

  unfoldable pub resolve_retry_plan :
      TransactionSettings Seconds → Option ℤ → Option Seconds → Plan Seconds
  resolve_retry_plan t max_attempts sleep =
      if below_one max_attempts
      then bad_max_attempts
      else plan (attempts_of max_attempts t) (sleep_of sleep t)

  at_least_one-positive : (o : Option ℤ) → (k : ℕ) × (at_least_one o ≡ pos (suc k))
  at_least_one-positive none = (9, refl)
  at_least_one-positive (some (pos zero)) = (9, refl)
  at_least_one-positive (some (pos (suc k))) = (k, ground arith)
  at_least_one-positive (some (negsuc k)) = (9, ground arith)

  -- Every plan makes at least one attempt, and as many as the caller asked for; an explicit number
  -- of attempts below one is refused, whatever the cluster's settings say.
  pub resolve_retry_plan_attempts :
      (t : TransactionSettings Seconds) (m : Option ℤ) (s : Option Seconds)
      → ((n : ℤ) × (m ≡ some n)
          × (ltb_ℤ n (pos 1) ≡ true)
          × (resolve_retry_plan t m s ≡ bad_max_attempts))
        ⊎ ((k : ℕ) × (resolve_retry_plan t m s ≡ plan (pos (suc k)) (sleep_of s t))
            × ((m ≡ none) ⊎ (m ≡ some (pos (suc k)))))
  unfolding resolve_retry_plan
  resolve_retry_plan_attempts t none s =
      let r = at_least_one-positive t.number_of_attempts in
      inr (r.0, ap (λ n. plan n (sleep_of s t)) r.1, inl refl)
  resolve_retry_plan_attempts t (some (pos zero)) s = inl (pos zero, refl, refl, refl)
  resolve_retry_plan_attempts t (some (pos (suc k))) s = inr (k, ground arith, inr refl)
  resolve_retry_plan_attempts t (some (negsuc k)) s =
      inl (negsuc k, refl, ground arith, ground arith)
