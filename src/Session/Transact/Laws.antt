-- ===== src/Session/Transact/Laws.antt =====
-- Which attempt decides `do_in_transaction` of aerospike_sdk/aio/session.py, and what it committed.
use aerospike_client_python.Base.{
  ℕ, zero, suc, ◌+◌, ◌≤◌, ◌<◌, ℤ, pos, true, false, Bool-cases, Option-cases, Option, none, some,
  List, [], ◌∷◌, leb, ◌≡◌, refl, sym, ap, subst, ◌∙◌, ◌⊎◌, inl, inr, arith,
}
use aerospike_client_python.Base.Int.{ltb_ℤ}
use aerospike_client_python.Txn.Errors.{
  Exception, is_retryable_txn_error, Pause, retry_delay_seconds,
}
use aerospike_client_python.Txn.Plan.{TransactionSettings, resolve_retry_plan_attempts}
use aerospike_client_python.Txn.Session.{Error, runtime_error}
use aerospike_client_python.Session.Transact.{
  Attempt, value, threw, Ending, ended, raised, value_error, caught, is_retried, Calls, attempt,
  conclude, run_from, run_plan, do_in_transaction,
}

is_retried-caught :
    (e : Error) {x : Exception} → caught e ≡ some x → is_retried e ≡ is_retryable_txn_error x
unfolding is_retried
is_retried-caught e c = rw (c, is_retried) refl

not_caught : (e : Error) → caught e ≡ none → is_retried e ≡ false
unfolding is_retried
not_caught e c = rw (c, is_retried) refl

eq_or_lt : (n m : ℕ) → n ≤ m → (n ≡ m) ⊎ (suc n ≤ m)
eq_or_lt n m h = ground arith

module _ {T : Type 0} (w : Calls T) where
  abbrev pub ending_of : Attempt T → Ending T
  ending_of (value t) = ended t
  ending_of (threw e) = raised e

  -- An attempt that ends in an error that is worth a retry.
  abbrev pub IsRetried : Attempt T → Type 0
  IsRetried a = (e : Error) × (a ≡ threw e) × (is_retried e ≡ true)

  -- The attempt `n` decides: it is the first from `start` that is not retried, or the last one.
  pub record Decides (start attempts n : ℕ) (ending : Ending T) : Type 0 where
    pub started : start ≤ n
    pub in_range : n < attempts
    pub ending_is : ending ≡ ending_of (attempt w n).0
    pub before : (k : ℕ) → start ≤ k → k < n → IsRetried (attempt w k).0
    pub decisive : IsRetried (attempt w n).0 → suc n ≡ attempts

  module _ (n attempts : ℕ) (again : List Pause → Ending T × List Pause) (pauses : List Pause) where
    abbrev Stops : Attempt T → Type 0
    Stops a =
        (conclude w n attempts again pauses a ≡ (ending_of a, pauses))
        × (IsRetried a → attempts ≤ suc n)

    abbrev GoesOn : Attempt T → Type 0
    GoesOn a =
        (e : Error) × (x : Exception) × (a ≡ threw e)
        × (is_retried e ≡ true)
        × (suc n < attempts)
        × (conclude w n attempts again pauses a ≡ again (retry_delay_seconds x ∷ pauses))

    error_of_attempt : Attempt T → Error
    error_of_attempt (value t) = runtime_error
    error_of_attempt (threw e) = e

    threw_once : {d e : Error} → ◌≡◌ {A = Attempt T} (threw d) (threw e) → d ≡ e
    unfolding error_of_attempt
    threw_once h = ap error_of_attempt h

    conclude-cases : (a : Attempt T) → Stops a ⊎ GoesOn a
    conclude-cases (value t) = inl (refl, λ r. absurd (cc (r.1)))
    conclude-cases (threw e) = elim (Option-cases (caught e)) [
      | inl c ↦ inl (
        rw (c, conclude) refl,
        λ r. absurd (cc (ap is_retried (threw_once (r.1)), r.2, not_caught e c)),
      )
      | inr (x, c) ↦ elim (Bool-cases (is_retryable_txn_error x)) [
        | inr h ↦ inl (
          rw (c, h, conclude) refl,
          λ r. absurd (cc (ap is_retried (threw_once (r.1)), r.2, is_retried-caught e c ∙ h)),
        )
        | inl h ↦ elim (Bool-cases (leb attempts (n + 1))) [
          | inl k ↦ inl (rw (c, h, k, conclude) refl, λ r. ground (arith, k))
          | inr k ↦ inr (
            e,
            x,
            refl,
            is_retried-caught e c ∙ h,
            ground (arith, k),
            rw (c, h, k, conclude) refl,
          )
        ]
      ]
    ]

  run_from-Decides :
      (left n attempts : ℕ) (pauses : List Pause)
      → left + n ≡ attempts
      → 1 ≤ left
      → (m : ℕ) × Decides n attempts m (run_from w left n attempts pauses).0
  unfolding run_from
  run_from-Decides zero n attempts pauses h k = absurd (omega (arith, k))
  run_from-Decides (suc left) n attempts pauses h k =
      let again = run_from w left (suc n) attempts in
      elim (conclude-cases n attempts again pauses (attempt w n).0) [
        | inl stops ↦ (
          n,
          record {
            started = omega arith;
            in_range = omega (arith, h);
            ending_is = ap (λ r. r.0) (stops.0);
            before = λ j p q. absurd (omega (arith, p, q));
            decisive = λ r. omega (arith, h, stops.1 r);
          },
        )
        | inr (e, x, threw_e, retried, more, next) ↦
            let later =
              run_from-Decides left (suc n) attempts (retry_delay_seconds x ∷ pauses)
                (omega (arith, h)) (omega (arith, h, more)) in
            let d = later.1 in
            (
              later.0,
              record {
                started = omega (arith, d.started);
                in_range = d.in_range;
                ending_is = ap (λ r. r.0) next ∙ d.ending_is;
                before = λ j p q. elim (eq_or_lt n j p) [
                  | inl same ↦ subst (λ i. IsRetried (attempt w i).0) same (e, threw_e, retried)
                  | inr more_than ↦ d.before j more_than q
                ];
                decisive = d.decisive;
              },
            )
      ]

  module _ {Seconds : Type 0} (default_sleep_seconds : Seconds) where
    -- Unless the number of attempts is refused, one attempt decides how the call ends, by a result
    -- or an error: the first that does not end in an error that is worth a retry, or else the last;
    -- every attempt before it has ended in such an error.
    pub do_in_transaction-Decides :
        (transactions : TransactionSettings Seconds) (max_attempts : Option ℤ)
        (sleep : Option Seconds)
        → let ending =
            (do_in_transaction w default_sleep_seconds transactions max_attempts sleep).0 in
          ((n : ℤ) × (max_attempts ≡ some n) × (ltb_ℤ n (pos 1) ≡ true) × (ending ≡ value_error))
          ⊎ ((attempts : ℕ) × (n : ℕ) × Decides 0 attempts n ending
              × ((max_attempts ≡ none) ⊎ (max_attempts ≡ some (pos attempts))))
    unfolding do_in_transaction
    do_in_transaction-Decides transactions max_attempts sleep =
        elim (resolve_retry_plan_attempts default_sleep_seconds transactions max_attempts sleep) [
          | inl (n, given, below, refused) ↦
              inl (n, given, below, ap (λ p. (run_plan w default_sleep_seconds p).0) refused)
          | inr (k, planned, asked) ↦
              let d = run_from-Decides (suc k) 0 (suc k) [] (omega arith) (omega arith) in
              inr (
                suc k,
                d.0,
                subst (λ p. Decides 0 (suc k) (d.0) (run_plan w default_sleep_seconds p).0)
                    (sym planned) d.1,
                asked,
              )
        ]
