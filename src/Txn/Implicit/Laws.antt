-- ===== src/Txn/Implicit/Laws.antt =====
-- What the retry loop of aerospike_sdk/implicit_txn.py leaves behind, whatever the outside answers.
use aerospike_client_python.Base.{
  pos, ℕ, zero, suc, ◌+◌, ◌≤◌, ◌≡◌, refl, ◌∙◌, ◌≢◌, true, false, none, [], ◌∷◌, arith, Bool-cases,
  inl, inr, sym, subst, ap₂, if◌then◌else◌, ap, ◌⊎◌,
}
use aerospike_client_python.Txn.Errors.{
  Exception, CommitFailure, commit_error, commit_failed, is_retryable_txn_error,
  retry_delay_seconds,
}
use aerospike_client_python.Txn.Plan.{
  plan, resolve_retry_plan, TransactionSettings, resolve_retry_plan_attempts,
}
use aerospike_client_python.Txn.Implicit.{
  Try, returned, raised, created, ran, committed, commit_raised, aborted, paused, Log, World, Exit,
  result, failure, unreachable, attempt_and_commit, conclude, settle, should_retry, run_from,
  run_in_implicit_txn, run_plan,
}

abbrev pub creations : Log → ℕ
creations [] = 0
creations (created n ∷ log) = suc (creations log)
creations (_ ∷ log) = creations log

-- The commits that the client reported as done.
abbrev pub commits : Log → ℕ
commits [] = 0
commits (committed n ∷ log) = suc (commits log)
commits (_ ∷ log) = commits log

abbrev pub aborts : Log → ℕ
aborts [] = 0
aborts (aborted n ∷ log) = suc (aborts log)
aborts (_ ∷ log) = aborts log

-- 1 for a result, 0 for an exception.
abbrev pub results : {T : Type 0} → Exit T → ℕ
results (result t) = 1
results (failure e) = 0
results unreachable = 0

module _ {T : Type 0} (w : World T) where
  -- The result is that of the last attempt, whose transaction the client then reported as committed.
  abbrev pub IsCommitted : Exit T → Log → Type 0
  IsCommitted (result t) log =
      (n : ℕ) × (before : Log) × (log ≡ committed n ∷ ran n ∷ created n ∷ before)
      × (w.attempt_fn n (created n ∷ before) ≡ returned t)
      × (w.commit n (ran n ∷ created n ∷ before) ≡ returned tt)
  IsCommitted (failure e) log = Unit
  IsCommitted unreachable log = Unit

  -- No commit of an attempt that raises is reported as done.
  record IsFailedAttempt (before after : Log) : Type 0 where
    creations_more : creations after ≡ suc (creations before)
    commits_same : commits after ≡ commits before
    aborts_same : aborts after ≡ aborts before

  attempt_and_commit-cases :
      (n : ℕ) (log : Log)
      → ((t : T) × (attempt_and_commit w n log
            ≡ (returned t, committed n ∷ ran n ∷ created n ∷ log))
          × IsCommitted (result t) (committed n ∷ ran n ∷ created n ∷ log))
        ⊎ ((e : Exception) × (l : Log) × (attempt_and_commit w n log ≡ (raised e, l))
            × IsFailedAttempt log l)
  unfolding attempt_and_commit
  attempt_and_commit-cases n log =
      go (w.attempt_fn n (created n ∷ log)) (w.commit n (ran n ∷ created n ∷ log)) refl refl
    where
      go :
          (a : Try T) (c : Try Unit)
          → w.attempt_fn n (created n ∷ log) ≡ a
          → w.commit n (ran n ∷ created n ∷ log) ≡ c
          → ((t : T) × (settle w n (ran n ∷ created n ∷ log) a c
                ≡ (returned t, committed n ∷ ran n ∷ created n ∷ log))
              × IsCommitted (result t) (committed n ∷ ran n ∷ created n ∷ log))
            ⊎ ((e : Exception) × (l : Log) × (settle w n (ran n ∷ created n ∷ log) a c
                  ≡ (raised e, l))
                × IsFailedAttempt log l)
      go (raised e) c p q =
          inr
            (e, _, refl, record { creations_more = refl; commits_same = refl; aborts_same = refl })
      go (returned t) (raised e) p q =
          inr
            (e, _, refl, record { creations_more = refl; commits_same = refl; aborts_same = refl })
      go (returned t) (returned tt) p q = inl (t, refl, (n, log, refl, p, q))

  -- What the loop leaves, against what it started with.
  record IsSettled (before : Log) (left : ℕ) (r : Exit T × Log) : Type 0 where
    commits_kept : commits r.1 ≡ results r.0 + commits before
    all_closed :
        creations r.1 + (commits before + aborts before)
        ≡ commits r.1 + aborts r.1 + creations before
    few : creations r.1 ≤ left + creations before
    returns : (1 ≤ left) → r.0 ≢ unreachable
    own : IsCommitted r.0 r.1

  run_from_returned :
      (left attempt attempts : ℕ) (log : Log) {t : T} {l : Log}
      → attempt_and_commit w attempt log ≡ (returned t, l)
      → run_from w (suc left) attempt attempts log ≡ (result t, l)
  unfolding run_from
  run_from_returned left attempt attempts log h =
      ap (conclude w attempt attempts (λ l. run_from w left (suc attempt) attempts l)) h

  run_from_raised :
      (left attempt attempts : ℕ) (log : Log) {e : Exception} {l : Log}
      → attempt_and_commit w attempt log ≡ (raised e, l)
      → run_from w (suc left) attempt attempts log ≡ (
          if should_retry w e attempt attempts
          then run_from w left
              (suc attempt)
              attempts
              (paused (retry_delay_seconds e) ∷ aborted attempt ∷ l)
          else (failure e, aborted attempt ∷ l))
  unfolding run_from
  run_from_raised left attempt attempts log h =
      ap (conclude w attempt attempts (λ l. run_from w left (suc attempt) attempts l)) h

  not_last :
      (e : Exception) (attempt attempts : ℕ)
      → should_retry w e attempt attempts ≡ true
      → suc attempt + 1 ≤ attempts
  unfolding should_retry
  not_last e attempt attempts h = ground arith

  result-not-unreachable : {t : T} → result t ≢ unreachable
  result-not-unreachable h = absurd (cc h)

  failure-not-unreachable : {e : Exception} → ◌≢◌ {A = Exit T} (failure e) unreachable
  failure-not-unreachable h = absurd (cc h)

  run_from-IsSettled :
      (left attempt attempts : ℕ) (log : Log)
      → left + attempt ≡ attempts
      → IsSettled log left (run_from w left attempt attempts log)
  unfolding run_from
  run_from-IsSettled zero attempt attempts log h = record {
    commits_kept = omega arith;
    all_closed = omega arith;
    few = omega arith;
    returns = λ p. absurd (omega arith);
    own = tt;
  }
  run_from-IsSettled (suc left) attempt attempts log h =
      elim (attempt_and_commit-cases attempt log) [
        | inl (t, p, o) ↦
            subst (IsSettled log (suc left)) (sym (run_from_returned left attempt attempts log p))
              (record {
                commits_kept = omega arith;
                all_closed = omega arith;
                few = omega arith;
                returns = λ _. result-not-unreachable;
                own = o;
              })
        | inr (e, l, p, f) ↦
            subst (IsSettled log (suc left)) (sym (run_from_raised left attempt attempts log p))
              (elim (Bool-cases (should_retry w e attempt attempts)) [
                | inl q ↦
                    let r =
                      run_from-IsSettled left (suc attempt) attempts
                        (paused (retry_delay_seconds e) ∷ aborted attempt ∷ l) (omega arith) in
                    rw q (record {
                      commits_kept = omega (arith, f.commits_same, r.commits_kept);
                      all_closed =
                          omega
                            (arith, f.commits_same, f.aborts_same, f.creations_more, r.all_closed);
                      few = omega (arith, f.creations_more, r.few);
                      returns = λ _. r.returns (omega (arith, not_last e attempt attempts q));
                      own = r.own;
                    })
                | inr q ↦ rw q (record {
                  commits_kept = omega (arith, f.commits_same);
                  all_closed = omega (arith, f.commits_same, f.aborts_same, f.creations_more);
                  few = omega (arith, f.creations_more);
                  returns = λ _. failure-not-unreachable;
                  own = tt;
                })
              ])
      ]

  attempt_and_commit_raised :
      (n : ℕ) (log : Log) {r : T} {e : Exception}
      → w.attempt_fn n (created n ∷ log) ≡ returned r
      → w.commit n (ran n ∷ created n ∷ log) ≡ raised e
      → attempt_and_commit w n log ≡ (raised e, commit_raised n ∷ ran n ∷ created n ∷ log)
  unfolding attempt_and_commit
  attempt_and_commit_raised n log a b = ap₂ (settle w n (ran n ∷ created n ∷ log)) a b

  unretried :
      (f : CommitFailure) (attempt attempts : ℕ)
      → f.result_code ≡ none
      → should_retry w (commit_failed f) attempt attempts ≡ false
  unfolding should_retry is_retryable_txn_error
  unretried f attempt attempts h = ground (arith, h)

  run_from_unretried :
      (left attempt attempts : ℕ) (log : Log) {e : Exception} {l : Log}
      → attempt_and_commit w attempt log ≡ (raised e, l)
      → should_retry w e attempt attempts ≡ false
      → run_from w (suc left) attempt attempts log ≡ (failure e, aborted attempt ∷ l)
  run_from_unretried left attempt attempts log h q =
      run_from_raised left attempt attempts log h ∙ rw q refl

module _ {T Seconds : Type 0} (w : World T) (d : Seconds) (t : TransactionSettings Seconds) where
  run_in_implicit_txn-run_from :
      (k : ℕ) × (run_in_implicit_txn w d t ≡ run_from w (suc k) 0 (suc k) [])
  unfolding run_in_implicit_txn
  run_in_implicit_txn-run_from = elim (resolve_retry_plan_attempts d t none none) [
    | inl (n, p, _, _) ↦ absurd (cc p)
    | inr (k, p, _) ↦ (k, ap (run_plan w d) p)
  ]

  run_in_implicit_txn-IsSettled : (k : ℕ) × IsSettled w [] (suc k) (run_in_implicit_txn w d t)
  run_in_implicit_txn-IsSettled =
      let r = run_in_implicit_txn-run_from in
      (
        r.0,
        subst (IsSettled w [] (suc r.0)) (sym r.1)
            (run_from-IsSettled w (suc r.0) 0 (suc r.0) [] (omega arith)),
      )

  -- Whatever the attempts and the commits answer: the client has reported one commit as done when the
  -- call of the implicit transaction returns a result, which is that of the last attempt, whose own
  -- transaction that commit was of, and it has reported none when the call raises, where a commit
  -- that raised may still take effect.
  pub commits-run_in_implicit_txn :
      let r = run_in_implicit_txn w d t in (commits r.1 ≡ results r.0) × IsCommitted w r.0 r.1
  commits-run_in_implicit_txn = (
    omega (arith, run_in_implicit_txn-IsSettled.1.commits_kept),
    run_in_implicit_txn-IsSettled.1.own,
  )

  -- Every transaction that the loop opens is reported as committed or asked to be aborted before the
  -- call ends.
  pub run_in_implicit_txn_closes :
      creations (run_in_implicit_txn w d t).1
      ≡ commits (run_in_implicit_txn w d t).1 + aborts (run_in_implicit_txn w d t).1
  run_in_implicit_txn_closes = omega (arith, run_in_implicit_txn-IsSettled.1.all_closed)

  -- The loop opens at most as many transactions as the retry plan gives attempts.
  pub run_in_implicit_txn_few :
      (n : ℕ) {s : Seconds}
      → resolve_retry_plan d t none none ≡ plan (pos n) s
      → creations (run_in_implicit_txn w d t).1 ≤ n
  unfolding run_in_implicit_txn
  run_in_implicit_txn_few n h =
      let e : run_in_implicit_txn w d t ≡ run_from w n 0 n [] = ap (run_plan w d) h in
      let r = subst (IsSettled w [] n) (sym e) (run_from-IsSettled w n 0 n [] (omega arith)) in
      omega (arith, r.few)

  -- The implicit loop ends by a result or an exception, never at the line after it.
  pub run_in_implicit_txn_returns : (run_in_implicit_txn w d t).0 ≢ unreachable
  run_in_implicit_txn_returns = run_in_implicit_txn-IsSettled.1.returns (omega arith)

  -- A first commit that fails cleanly without a code ends the implicit loop at once, with one
  -- attempt made, where the exception that the SDK converts it to would be retried.
  pub run_in_implicit_txn_clean_failure :
      (f : CommitFailure) (r : T)
      → f.in_doubt ≡ false
      → f.commit_error_type ≡ none
      → f.result_code ≡ none
      → w.attempt_fn 0 (created 0 ∷ []) ≡ returned r
      → w.commit 0 (ran 0 ∷ created 0 ∷ []) ≡ raised (commit_failed f)
      → ((run_in_implicit_txn w d t).0 ≡ failure (commit_failed f))
        × (creations (run_in_implicit_txn w d t).1 ≡ 1)
        × (is_retryable_txn_error (commit_error f) ≡ true)
  unfolding is_retryable_txn_error
  run_in_implicit_txn_clean_failure f r p q c a b =
      let run = run_in_implicit_txn-run_from in
      let all =
        run.1
        ∙ run_from_unretried w run.0 0 (suc run.0) [] (attempt_and_commit_raised w 0 [] a b)
            (unretried w f 0 (suc run.0) c) in
      (ap (λ x. x.0) all, ap (λ x. creations x.1) all, rw (p, q) refl)
