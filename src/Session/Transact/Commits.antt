-- ===== src/Session/Transact/Commits.antt =====
-- What a call of `do_in_transaction` of aerospike_sdk/aio/session.py that returns has committed.
use aerospike_client_python.Base.{
  ℕ, ℤ, true, false, Option, none, some, is_some, Option-cases, ◌≡◌, refl, sym, ap, ◌∙◌, inl, inr,
}
use aerospike_client_python.Txn.Plan.{TransactionSettings}
use aerospike_client_python.Txn.Implicit.{Try, returned, raised}
use aerospike_client_python.Txn.Session.{
  Error, Client, CommitStatus, Session, enter, exit, error_of, from_commit, after_commit, commit,
}
use aerospike_client_python.Session.Transact.{
  Attempt, value, threw, Ending, ended, Calls, new_tx, after_exit, leave, attempt,
  do_in_transaction,
}
use aerospike_client_python.Session.Transact.Laws.{ending_of, do_in_transaction-Decides}

-- The commit of the transaction that a session holds open is reported as done by the client.
abbrev pub IsCommitted : (C : Client) → Session C → Type 0
IsCommitted C s =
    (txn : C.Txn)
    → s.txn ≡ some txn
    → s.finalized ≡ false
    → (status : CommitStatus) × ((C.commit txn).0 ≡ returned status)
      × (is_some (from_commit status) ≡ true)

module _ (C : Client) where
  after_commit_done :
      (s : Session C) (r : Try CommitStatus × C.Txn)
      → (error_of C (after_commit C s r)).0 ≡ none
      → (status : CommitStatus) × (r.0 ≡ returned status) × (is_some (from_commit status) ≡ true)
  after_commit_done s (raised e, txn) h = absurd (cc h)
  after_commit_done s (returned status, txn) h = elim (Option-cases (from_commit status)) [
    | inl e ↦ absurd (cc (rw e at h))
    | inr e ↦ (status, refl, ap is_some e.1)
  ]

  exit-IsCommitted : (s : Session C) → (exit C false s).0 ≡ none → IsCommitted C s
  unfolding exit commit
  exit-IsCommitted s h txn p q =
      after_commit_done (record s { txn = some txn; finalized = false }) (C.commit txn)
        (rw (p, q) at h)

module _ {T : Type 0} where
  -- The operation ended with `t`, and leaving the block committed what it left open.
  abbrev pub Returns : (C : Client) → Attempt T × Session C → T → Type 0
  Returns C r t = (s : Session C) × (r ≡ (value t, s)) × IsCommitted C s

  after_exit-value :
      {C : Client} (w : Calls T) (a : Attempt T) (r : Option Error × Session C) (t : T)
      → (after_exit w a r).0 ≡ value t
      → (r.0 ≡ none) × (a ≡ value t)
  after_exit-value w a (none, s) t h = (refl, h)
  after_exit-value w a (some e, s) t h = absurd (cc h)

  leave-Returns :
      (w : Calls T) (C : Client) (r : Attempt T × Session C) (t : T)
      → (leave w r).0 ≡ value t
      → Returns C r t
  unfolding leave
  leave-Returns w C (value v, s) t h =
      let p = after_exit-value w (value v) (exit C false s) t h in
      (s, ap (λ a. (a, s)) (p.1), exit-IsCommitted C s (p.0))
  leave-Returns w C (threw e, s) t h =
      absurd (cc ((after_exit-value w (threw e) (exit C true s) t h).1))

  module _ (w : Calls T) where
    -- The session that the operation of an attempt is given.
    unfoldable pub entered : (n : ℕ) → Session (w.client n)
    unfolding enter
    entered n = (enter (w.client n) (new_tx w n)).1

    attempt-Returns :
        (n : ℕ) (t : T)
        → (attempt w n).0 ≡ value t
        → Returns (w.client n) (w.operation n (entered n)) t
    unfolding attempt entered
    attempt-Returns n t h = leave-Returns w (w.client n) (w.operation n (entered n)) t h

    ended_or : T → Ending T → T
    ended_or u (ended x) = x
    ended_or u _ = u

    ending_of-ended : (a : Attempt T) (t : T) → ending_of w a ≡ ended t → a ≡ value t
    unfolding ended_or
    ending_of-ended (value v) t h = ap value (ap (ended_or v) h)
    ending_of-ended (threw e) t h = absurd (cc h)

    module _ {Seconds : Type 0} (default_sleep_seconds : Seconds) where
      -- A call that returns a value returns that of one attempt's operation; if the operation left
      -- its transaction open, the client has reported its commit as done.
      pub do_in_transaction-commits :
          (transactions : TransactionSettings Seconds) (max_attempts : Option ℤ)
          (sleep : Option Seconds) (t : T)
          → (do_in_transaction w default_sleep_seconds transactions max_attempts sleep).0 ≡ ended t
          → (n : ℕ) × Returns (w.client n) (w.operation n (entered n)) t
      do_in_transaction-commits transactions max_attempts sleep t h =
          elim (do_in_transaction-Decides w default_sleep_seconds transactions max_attempts sleep) [
            | inl (n, given, below, refused) ↦ absurd (cc (refused, h))
            | inr (attempts, n, d, asked) ↦
                (n, attempt-Returns n t (ending_of-ended (attempt w n).0 t (sym d.ending_is ∙ h)))
          ]
