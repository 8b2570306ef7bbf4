-- ===== src/Session/Coalesce.antt =====
-- The coalescing of single reads and writes in aerospike_sdk/aio/session.py: `get`, `put` and the
-- flush that the loop calls.
pub mod Frames
pub mod Sound
pub mod Laws
pub mod Isolation
use aerospike_client_python.Base.{
  ℕ, zero, suc, ◌==◌, Bool, true, false, ◌&&◌, not, any, Option, none, some, List, [], ◌∷◌, ◌++◌,
  map, if◌then◌else◌,
}

-- What becomes of a future that a caller awaits: a submission took it, it was given an exception,
-- or it was done already.
pub data Fate (Exception : Type 0) : Type 0 where
  taken was_done : Fate Exception
  failed : Exception → Fate Exception

module _ (Key Bins Exception : Type 0) where
  -- A call that is not buffered, and goes to the client.
  pub data Direct : Type 0 where
    direct_get : Key → Direct
    direct_put : Key → Bins → Direct

  -- The session's buffers; below them the loop: the next future, the flushes that it is to call,
  -- the futures that are done, the direct calls, what callers await, and what became of it.
  pub record Loop : Type 0 where
    pub keys : List Key
    pub futs : List ℕ
    pub write_keys : List Key
    pub write_bins : List Bins
    pub write_futs : List ℕ
    pub scheduled : Bool
    pub next : ℕ
    pub armed : ℕ
    pub done : List ℕ
    pub direct : List Direct
    pub awaited : List ℕ
    pub fates : List (ℕ × Fate Exception)
    pub awaited_writes : List ℕ
    pub write_fates : List (ℕ × Fate Exception)

  abbrev pub initial : Loop
  initial = record {
    keys = [];
    futs = [];
    write_keys = [];
    write_bins = [];
    write_futs = [];
    scheduled = false;
    next = 0;
    armed = 0;
    done = [];
    direct = [];
    awaited = [];
    fates = [];
    awaited_writes = [];
    write_fates = [];
  }

  -- The native client: a submission takes its futures, or raises and settles none of them. It may
  -- depend on all that happened before.
  pub record Client : Type 0 where
    pub submit_read : Loop → List Key → List ℕ → Option Exception
    pub submit_write : Loop → List Key → List ℕ → List Bins → Option Exception

  abbrev pub arm : Loop → Loop
  arm s = record s { scheduled = true; armed = suc s.armed }

  abbrev pub send : Direct → Loop → Loop
  send call s = record s { direct = s.direct ++ call ∷ [] }

  unfoldable pub coalesced_get : Key → Loop → Loop
  coalesced_get key s =
      if s.scheduled
      then record s {
        keys = s.keys ++ key ∷ [];
        futs = s.futs ++ s.next ∷ [];
        awaited = s.awaited ++ s.next ∷ [];
        next = suc s.next;
      }
      else send (direct_get key) (arm s)

  unfoldable pub coalesced_put : Key → Bins → Loop → Loop
  coalesced_put key bins s =
      if s.scheduled
      then record s {
        write_keys = s.write_keys ++ key ∷ [];
        write_bins = s.write_bins ++ bins ∷ [];
        write_futs = s.write_futs ++ s.next ∷ [];
        awaited_writes = s.awaited_writes ++ s.next ∷ [];
        next = suc s.next;
      }
      else send (direct_put key bins) (arm s)

  -- `coalesce`: `_COALESCE`; `in_txn`: the session has a transaction; `projected`: bins are named.
  unfoldable pub get : (coalesce in_txn projected : Bool) → Key → Loop → Loop
  unfolding coalesced_get
  get coalesce in_txn projected key s =
      if not in_txn && coalesce && not projected
      then coalesced_get key s
      else send (direct_get key) s

  unfoldable pub put : (coalesce_writes in_txn : Bool) → Key → Bins → Loop → Loop
  unfolding coalesced_put
  put coalesce_writes in_txn key bins s =
      if not in_txn && coalesce_writes
      then coalesced_put key bins s
      else send (direct_put key bins) s

  abbrev pub is_done : ℕ → Loop → Bool
  is_done f s = any (λ d. f == d) s.done

  -- `fut.set_exception(exc)`, where the future is not done.
  abbrev pub fail : Exception → ℕ → Loop → Loop
  fail exc f s = record s { done = f ∷ s.done }

  -- `for fut in futs: if not fut.done(): fut.set_exception(exc)`
  abbrev pub fail_reads : Exception → List ℕ → Loop → Loop
  fail_reads exc [] s = s
  fail_reads exc (f ∷ fs) s = fail_reads exc fs (
      if is_done f s
      then record s { fates = s.fates ++ (f, was_done) ∷ [] }
      else record (fail exc f s) { fates = s.fates ++ (f, failed exc) ∷ [] })

  abbrev pub take_reads : List ℕ → Loop → Loop
  take_reads fs s = record s { fates = s.fates ++ map (λ f. (f, taken)) fs }

  abbrev pub take_writes : List ℕ → Loop → Loop
  take_writes fs s = record s { write_fates = s.write_fates ++ map (λ f. (f, taken)) fs }

  module _ (C : Client) where
    abbrev pub read_outcome : List ℕ → Option Exception → Loop → Loop
    read_outcome fs none s = take_reads fs s
    read_outcome fs (some exc) s = fail_reads exc fs s

    abbrev pub submit_reads : List Key → List ℕ → Loop → Loop
    submit_reads [] fs s = s
    submit_reads (k ∷ ks) fs s =
        let t = record s { keys = []; futs = [] } in read_outcome fs (C.submit_read t (k ∷ ks) fs) t

    -- One turn of the loop over a window that failed, for a future that is not done.
    abbrev pub resubmitted : ℕ → Option Exception → Loop → Loop
    resubmitted f none s = take_writes (f ∷ []) s
    resubmitted f (some exc) s = record (fail exc f s) {
      write_fates = s.write_fates ++ (f, failed exc) ∷ [];
    }

    abbrev pub resubmit_one : Key → ℕ → Bins → Loop → Loop
    resubmit_one k f b s =
        if is_done f s
        then record s { write_fates = s.write_fates ++ (f, was_done) ∷ [] }
        else resubmitted f (C.submit_write s (k ∷ []) (f ∷ []) (b ∷ [])) s

    -- `zip` ends with the shortest list.
    unfoldable pub resubmit_writes_individually : List Key → List ℕ → List Bins → Loop → Loop
    resubmit_writes_individually [] fs bs s = s
    resubmit_writes_individually (k ∷ ks) [] bs s = s
    resubmit_writes_individually (k ∷ ks) (f ∷ fs) [] s = s
    resubmit_writes_individually (k ∷ ks) (f ∷ fs) (b ∷ bs) s =
        resubmit_writes_individually ks fs bs (resubmit_one k f b s)

    abbrev pub write_outcome : List Key → List ℕ → List Bins → Option Exception → Loop → Loop
    unfolding resubmit_writes_individually
    write_outcome ks fs bs none s = take_writes fs s
    write_outcome ks fs bs (some exc) s = resubmit_writes_individually ks fs bs s

    abbrev pub submit_writes : List Key → List ℕ → List Bins → Loop → Loop
    unfolding write_outcome
    submit_writes [] fs bs s = s
    submit_writes (k ∷ ks) fs bs s =
        let t = record s { write_keys = []; write_futs = []; write_bins = [] } in
        write_outcome (k ∷ ks) fs bs (C.submit_write t (k ∷ ks) fs bs) t

    unfoldable pub flush_coalesced : Loop → Loop
    unfolding submit_writes
    flush_coalesced s =
        let read = submit_reads s.keys s.futs (record s { scheduled = false }) in
        submit_writes read.write_keys read.write_futs read.write_bins read

    -- What the loop does next: it runs a caller's `get` or `put` up to its `await`, a flush that
    -- is armed, or a completion of a future by the client or by a cancellation.
    pub data Event : Type 0 where
      run_get : (coalesce in_txn projected : Bool) → Key → Event
      run_put : (coalesce_writes in_txn : Bool) → Key → Bins → Event
      run_flush : Event
      complete : ℕ → Event

    unfoldable pub flush_armed : ℕ → Loop → Loop
    unfolding flush_coalesced
    flush_armed zero s = s
    flush_armed (suc armed) s = flush_coalesced (record s { armed = armed })

    unfoldable pub step : Event → Loop → Loop
    unfolding get put flush_armed
    step (run_get coalesce in_txn projected key) s = get coalesce in_txn projected key s
    step (run_put coalesce_writes in_txn key bins) s = put coalesce_writes in_txn key bins s
    step run_flush s = flush_armed s.armed s
    step (complete f) s = record s { done = f ∷ s.done }

    unfoldable pub run : List Event → Loop → Loop
    unfolding step
    run [] s = s
    run (e ∷ es) s = run es (step e s)
