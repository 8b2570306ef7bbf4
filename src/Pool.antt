-- ===== src/Pool.antt =====
-- `AsyncPool` of aerospike_sdk/aio/pool.py: its lifecycle, and the dispatch of calls to its loops.
pub mod Laws
pub mod Fair
use aerospike_client_python.Base.{
  ℕ, zero, suc, ◌+◌, ◌/◌, ◌%◌, max, Bool, true, false, not, ◌&&◌, ◌==◌, leb, length, get_elem?, map,
  Option, none, some, List, [], ◌∷◌, ◌++◌, if◌then◌else◌,
}

-- `x or y` on counts, where 0 counts as absent.
abbrev or_count : Option ℕ → ℕ → ℕ
or_count none d = d
or_count (some n) d = if n == 0 then d else n

-- `itertools.cycle(range(size))`, with the index that it yields next.
pub record Turns : Type 0 where
  pub size : ℕ
  pub turn : ℕ

abbrev pub turns : ℕ → Turns
turns n = record { size = n; turn = 0 }

abbrev pub following : Turns → Turns
following t = record t { turn = if suc t.turn == t.size then 0 else suc t.turn }

-- `next(self._rr)`; `none` is its `StopIteration`.
unfoldable pub next : Turns → Option (ℕ × Turns)
next t = if t.size == 0 then none else some (t.turn, following t)

-- What a connect gives, for each loop: a `Cluster`, or an exception.
pub data Connected (Cluster Exn : Type 0) : Type 0 where
  connected : Cluster → Connected Cluster Exn
  failed : Exn → Connected Cluster Exn

-- `pool_exn` is an exception of a connect; the others are Python's.
pub data Error (Exn : Type 0) : Type 0 where
  runtime_error stop_iteration index_error : Error Exn
  pool_exn : Exn → Error Exn

module _ (Cluster Exn : Type 0) where
  -- `closed_members` are the clusters that the pool has closed; `threads` counts the list's.
  pub record Pool : Type 0 where
    pub n : ℕ
    pub per_client_runtime : Bool
    pub per_client_runtime_workers : ℕ
    pub threads : ℕ
    pub members : List Cluster
    pub rr : Turns
    pub started : Bool
    pub closed : Bool
    pub closed_members : List Cluster

  abbrev or_auto : Option Bool → Bool → Bool
  or_auto none d = d
  or_auto (some b) d = b

  -- `__init__`, given the number of CPUs and whether the GIL is enabled.
  unfoldable pub init : Option ℕ → Option Bool → Option ℕ → Bool → Pool
  init loop_count per_client_runtime cpus gil =
      let n = or_count loop_count (or_count cpus 4) in
      record {
        n = n;
        per_client_runtime = or_auto per_client_runtime (leb 4 n && not gil);
        per_client_runtime_workers = max 2 (or_count cpus 4 / n);
        threads = 0;
        members = [];
        rr = turns n;
        started = false;
        closed = false;
        closed_members = [];
      }

  abbrev pub clusters : List (Connected Cluster Exn) → List Cluster
  clusters [] = []
  clusters (connected c ∷ results) = c ∷ clusters results
  clusters (failed e ∷ results) = clusters results

  abbrev pub first_error : List (Connected Cluster Exn) → Option Exn
  first_error [] = none
  first_error (connected c ∷ results) = first_error results
  first_error (failed e ∷ results) = some e

  -- `start` after the connects.
  abbrev pub connect_all :
      List (Connected Cluster Exn) → Pool → Option Exn → Option (Error Exn) × Pool
  connect_all results p none =
      (none, record p { threads = p.threads + p.n; members = clusters results; started = true })
  connect_all results p (some e) = (
    some (pool_exn e),
    record p { threads = p.threads + p.n; closed_members = p.closed_members ++ clusters results },
  )

  -- `start`: its error, if it raises; `connect` gives the result of each of `n` connects.
  unfoldable pub start : (ℕ → List (Connected Cluster Exn)) → Pool → Option (Error Exn) × Pool
  start connect p =
      if p.started
      then (some runtime_error, p)
      else if p.closed
      then (some runtime_error, p)
      else connect_all (connect p.n) p (first_error (connect p.n))

  unfoldable pub aclose : Pool → Pool
  aclose p = if p.closed then p else record p {
    closed = true;
    threads = 0;
    members = [];
    rr = turns 0;
    closed_members = p.closed_members ++ p.members;
  }

  -- `_check_usable` and `_guard_self_dispatch`, for a caller inside or outside the pool's loops.
  abbrev pub usable : Bool → Pool → Bool
  usable inside p = not p.closed && p.started && not inside

  -- What a dispatch gives: the loop with its cluster, or an error.
  pub data Dispatch : Type 0 where
    to : ℕ → Cluster → Dispatch
    refused : Error Exn → Dispatch

  abbrev pub at_index : ℕ → List Cluster → Dispatch
  at_index i members = elim (get_elem? members i) [ none ↦ refused index_error | some c ↦ to i c ]

  -- The next turn.
  unfoldable pub take_turn : Pool → Dispatch × Pool
  unfolding next
  take_turn p = elim (next p.rr) [
    | none ↦ (refused stop_iteration, p)
    | some t ↦ (at_index t.0 p.members, record p { rr = t.1 })
  ]

  abbrev pub pick_or_turn : Option ℕ → Pool → Dispatch × Pool
  unfolding take_turn
  pick_or_turn (some i) p = (at_index (i % p.n) p.members, p)
  pick_or_turn none p = take_turn p

  -- `run`: the loop that the call goes to.
  unfoldable pub run : Bool → Option ℕ → Pool → Dispatch × Pool
  unfolding pick_or_turn
  run inside pick p = if usable inside p then pick_or_turn pick p else (refused runtime_error, p)

  -- The loop of `map`: where each input goes, in order.
  unfoldable pub map_loop : {X : Type 0} → List X → Pool → List (Dispatch × X) × Pool
  unfolding take_turn
  map_loop [] p = ([], p)
  map_loop (x ∷ xs) p =
      let t = take_turn p in let rest = map_loop xs t.1 in ((t.0, x) ∷ rest.0, rest.1)

  -- `map`: none where it is refused.
  unfoldable pub map_inputs :
      {X : Type 0} → Bool → List X → Pool → Option (List (Dispatch × X)) × Pool
  unfolding map_loop
  map_inputs inside xs p =
      if usable inside p then (let r = map_loop xs p in (some r.0, r.1)) else (none, p)
