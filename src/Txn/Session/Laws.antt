-- ===== src/Txn/Session/Laws.antt =====
-- The states that the methods of aerospike_sdk/aio/transactional_session.py lead through.
use aerospike_client_python.Base.{
  ◌≡◌, refl, Bool, true, false, Option, none, some, Bool-cases, inl, inr, subst, sym,
}
use aerospike_client_python.Txn.Errors.{txn_already_committed, Exception, converted}
use aerospike_client_python.Txn.Implicit.{Try, returned, raised}
use aerospike_client_python.Txn.Session.{
  CommitStatus, AbortStatus, status_already_committed, client_error, transaction_error, Client,
  answer, error, Session, new_session, active, require_open, keep_if_in_doubt, commit, abort, enter,
  exit, after_commit, after_abort,
}

module _ (C : Client) where
  -- One call of a method of the lifecycle.
  pub data Step : Session C → Session C → Type 0 where
    by_enter : (s : Session C) → Step s (enter C s).1
    by_commit : (s : Session C) → Step s (commit C s).1
    by_abort : (s : Session C) → Step s (abort C s).1
    by_exit : (failed : Bool) (s : Session C) → Step s (exit C failed s).1

  pub data Reach : Session C → Type 0 where
    start : Reach (new_session C)
    step : {s s' : Session C} → Reach s → Step s s' → Reach s'

  -- A finalized session holds no transaction.
  abbrev pub IsSound : Session C → Type 0
  IsSound s = s.finalized ≡ true → s.txn ≡ none

  -- A session that holds a transaction and is not finalized.
  abbrev pub open_session : Session C → C.Txn → Session C
  open_session s t = record s { txn = some t; finalized = false }

  keep_if_in_doubt-IsSound :
      (s : Session C) (t : C.Txn) → s.finalized ≡ false → IsSound (keep_if_in_doubt C s t)
  keep_if_in_doubt-IsSound s t h = elim (Bool-cases (C.commit_failed t)) [
    | inl p ↦ rw p (λ q. absurd (cc (h, q)))
    | inr p ↦ rw p (λ q. refl)
  ]

  after_commit-IsSound :
      (s : Session C) (r : Try CommitStatus × C.Txn)
      → s.finalized ≡ false
      → IsSound (after_commit C s r).1
  after_commit-IsSound s (raised e, t) h = keep_if_in_doubt-IsSound s t h
  after_commit-IsSound s (returned st, t) h = λ q. refl

  after_abort-IsSound :
      (s : Session C) (r : Try AbortStatus × C.Txn)
      → s.finalized ≡ false
      → IsSound (after_abort C s r).1
  after_abort-IsSound s (raised e, t) h = keep_if_in_doubt-IsSound s t h
  after_abort-IsSound s (returned st, t) h = λ q. refl

  commit-IsSound : (s : Session C) → IsSound s → IsSound (commit C s).1
  unfolding commit
  commit-IsSound s h = go s.txn s.finalized h
    where
      go :
          (x : Option C.Txn) (f : Bool)
          → (f ≡ true → x ≡ none)
          → IsSound (commit C (record s { txn = x; finalized = f })).1
      go x true k = k
      go none false k = λ q. refl
      go (some t) false k = after_commit-IsSound (open_session s t) (C.commit t) refl

  abort-IsSound : (s : Session C) → IsSound s → IsSound (abort C s).1
  unfolding abort
  abort-IsSound s h = go s.txn s.finalized h
    where
      go :
          (x : Option C.Txn) (f : Bool)
          → (f ≡ true → x ≡ none)
          → IsSound (abort C (record s { txn = x; finalized = f })).1
      go x true k = k
      go none false k = λ q. refl
      go (some t) false k = after_abort-IsSound (open_session s t) (C.abort t) refl

  exit-IsSound : (failed : Bool) (s : Session C) → IsSound s → IsSound (exit C failed s).1
  unfolding exit
  exit-IsSound failed s h = elim (Bool-cases (active C s)) [
    | inl p ↦ rw p (λ q. refl)
    | inr p ↦ rw p h
  ]

  enter-IsSound : (s : Session C) → IsSound s → IsSound (enter C s).1
  unfolding enter
  enter-IsSound s h = go s.txn s.finalized h
    where
      go :
          (x : Option C.Txn) (f : Bool)
          → (f ≡ true → x ≡ none)
          → IsSound (enter C (record s { txn = x; finalized = f })).1
      go none f k = λ q. absurd (cc q)
      go (some t) f k = k

  Step-IsSound : {s s' : Session C} → Step s s' → IsSound s → IsSound s'
  Step-IsSound (by_enter s) h = enter-IsSound s h
  Step-IsSound (by_commit s) h = commit-IsSound s h
  Step-IsSound (by_abort s) h = abort-IsSound s h
  Step-IsSound (by_exit failed s) h = exit-IsSound failed s h

  Reach-IsSound : {s : Session C} → Reach s → IsSound s
  Reach-IsSound start = λ q. refl
  Reach-IsSound (step r st) = Step-IsSound st (Reach-IsSound r)

  -- In every state that calls of the lifecycle lead a new session to, whatever the client answers, a
  -- finalized session holds no transaction.
  pub Reach-finalized : {s : Session C} → Reach s → s.finalized ≡ true → s.txn ≡ none
  Reach-finalized r h = Reach-IsSound r h

  -- After a commit that the client reports as done, a second commit answers that it was already
  -- committed, an abort and every operation are refused with that code, and nothing changes any
  -- more.
  pub commit_then :
      (s : Session C) (t : C.Txn) {st : CommitStatus} {t' : C.Txn}
      → C.commit t ≡ (returned st, t')
      → let s' = (commit C (open_session s t)).1 in
        (commit C s' ≡ (answer status_already_committed, s'))
        × (abort C s' ≡ (error (transaction_error txn_already_committed), s'))
        × (require_open C s' ≡ error (transaction_error txn_already_committed))
        × (exit C false s' ≡ (none, s'))
  unfolding commit abort require_open exit
  commit_then s t h = rw h (refl, refl, refl, refl)

  -- A commit that fails without being in doubt finalizes the session: its operations are refused from then on.
  pub commit_fails :
      (s : Session C) (t : C.Txn) {e : Exception} {t' : C.Txn}
      → C.commit t ≡ (raised e, t')
      → C.commit_failed t' ≡ false
      → let r = commit C (open_session s t) in
        (r.0 ≡ error (client_error (converted e)))
        × (r.1 ≡ record s { txn = none; finalized = true })
        × (require_open C r.1 ≡ error (transaction_error s.final_code))
  unfolding commit require_open
  commit_fails s t h k = rw (h, k) (refl, refl, refl)

  -- The session that entering, committing and entering again leaves.
  abbrev again : Session C
  again = record (open_session (new_session C) C.new_txn) {
    final_code = txn_already_committed;
    recorded = 2;
  }

  entered_again :
      {st : CommitStatus} {t : C.Txn}
      → C.commit C.new_txn ≡ (returned st, t)
      → (enter C (commit C (enter C (new_session C)).1).1).1 ≡ again
  unfolding commit enter
  entered_again h = rw h refl

  abbrev MisreportsCommit : Session C → Type 0
  MisreportsCommit s =
      let aborted = (abort C s).1 in
      ((commit C aborted).0 ≡ answer status_already_committed)
      × ((abort C aborted).0 ≡ error (transaction_error txn_already_committed))

  aborted_after_commit :
      {st : AbortStatus} {t : C.Txn} → C.abort C.new_txn ≡ (returned st, t) → MisreportsCommit again
  unfolding commit abort
  aborted_after_commit k = rw k (refl, refl)

  -- A session that is entered again after a commit, and whose second transaction is then aborted,
  -- answers a last commit as already committed, and refuses a last abort as committed.
  pub reused_session :
      {st : CommitStatus} {t : C.Txn} {st' : AbortStatus} {t' : C.Txn}
      → C.commit C.new_txn ≡ (returned st, t)
      → C.abort C.new_txn ≡ (returned st', t')
      → let committed = (commit C (enter C (new_session C)).1).1 in
        let aborted = (abort C (enter C committed).1).1 in
        ((commit C aborted).0 ≡ answer status_already_committed)
        × ((abort C aborted).0 ≡ error (transaction_error txn_already_committed))
  reused_session h k = subst MisreportsCommit (sym (entered_again h)) (aborted_after_commit k)
