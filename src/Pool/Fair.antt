-- ===== src/Pool/Fair.antt =====
-- How `map` of aerospike_sdk/aio/pool.py shards its inputs over the loops.
use aerospike_client_python.Base.{
  ℕ, zero, suc, ◌+◌, ◌≤◌, ◌<◌, Bool, true, false, ◌&&◌, ◌||◌, ◌==◌, ltb, leb, length, map, some,
  List, [], ◌∷◌, ◌≡◌, refl, sym, ap, subst, ◌∙◌, Bool-cases, inl, inr, if◌then◌else◌, arith,
}
use aerospike_client_python.Pool.{
  Pool, map_inputs, map_loop, take_turn, following, Turns, usable, Dispatch, to, refused, at_index,
}
use aerospike_client_python.Pool.Laws.{
  Reach, Reach-IsSound, take_turn-some, usable-open, following-turn, get_elem?-some,
}

-- The turns that `k` dispatches take.
abbrev pub turns_of : ℕ → Turns → List ℕ
turns_of zero t = []
turns_of (suc k) t = t.turn ∷ turns_of k (following t)

abbrev pub count : ℕ → List ℕ → ℕ
count i [] = 0
count i (j ∷ js) = (if i == j then 1 else 0) + count i js

-- Whether `k` dispatches from a turn reach a loop, with at most one round.
abbrev reaches : ℕ → ℕ → ℕ → ℕ → Bool
reaches n turn k i = (leb turn i && ltb i (turn + k)) || ltb (i + n) (turn + k)

count-turns_of :
    (n : ℕ) (k : ℕ) (t : Turns) (i : ℕ)
    → t.size ≡ n
    → t.turn < n
    → k ≤ n
    → i < n
    → count i (turns_of k t) ≡ (if reaches n t.turn k i then 1 else 0)
count-turns_of n zero t i e l b h = ground arith
count-turns_of n (suc k) t i e l b h = elim (Bool-cases (suc t.turn == t.size)) [
  | inl q ↦
      let ih =
        count-turns_of n k (record t { turn = 0 }) i e (omega (arith, l)) (omega (arith, b)) h in
      let last : suc t.turn ≡ n = ground (arith, q, e) in rw q (ground (arith, ih, last, b, h))
  | inr q ↦
      let ih =
        count-turns_of n k (record t { turn = suc t.turn }) i e (ground (arith, q, e, l))
          (omega (arith, b)) h in
      rw q (ground (arith, ih, l, b, h))
]

module _ (Cluster Exn : Type 0) where
  -- The loops that a `map` sends its inputs to, in order.
  abbrev pub loops_of : {X : Type 0} → List (Dispatch Cluster Exn × X) → List ℕ
  loops_of [] = []
  loops_of ((to i c, x) ∷ ds) = i ∷ loops_of ds
  loops_of ((refused e, x) ∷ ds) = loops_of ds

  -- An open, started pool.
  abbrev IsReady : Pool Cluster Exn → Type 0
  IsReady p = (0 < p.n) × (p.rr.size ≡ p.n) × (p.rr.turn < p.n) × (length p.members ≡ p.n)

  -- Where one turn leads to.
  take_turn-IsReady :
      (p : Pool Cluster Exn)
      → IsReady p
      → (c : Cluster) × (take_turn Cluster Exn p
          ≡ (to p.rr.turn c, record p { rr = following p.rr }))
        × ((following p.rr).turn < p.n)
  take_turn-IsReady p s =
      let some_turn : (p.rr.size == 0) ≡ false = ground (arith, s.0, s.1) in
      let here = get_elem?-some Cluster Exn p.members p.rr.turn (omega (arith, s.2, s.3)) in
      (
        here.0,
        take_turn-some Cluster Exn p some_turn ∙ rw (here.1, at_index) refl,
        following-turn Cluster Exn p.rr p.n (s.1) (s.2),
      )

  map_loop-turns :
      {X : Type 0} (xs : List X) (p : Pool Cluster Exn)
      → IsReady p
      → (loops_of (map_loop Cluster Exn xs p).0 ≡ turns_of (length xs) p.rr)
        × (map (λ d. d.1) (map_loop Cluster Exn xs p).0 ≡ xs)
  unfolding map_loop
  map_loop-turns [] p s = (refl, refl)
  map_loop-turns {X} (x ∷ xs) p s =
      let t = take_turn-IsReady p s in
      let ih = map_loop-turns xs (record p { rr = following p.rr }) (s.0, s.1, t.2, s.3) in
      subst
        (λ (r : Dispatch Cluster Exn × Pool Cluster Exn).
          (loops_of ((r.0, x) ∷ (map_loop Cluster Exn xs r.1).0) ≡ turns_of (suc (length xs)) p.rr)
          × (map (λ d. d.1) ((r.0, x) ∷ (map_loop Cluster Exn xs r.1).0) ≡ x ∷ xs))
        (sym (t.1)) (ap (λ is. p.rr.turn ∷ is) (ih.0), ap (λ ys. x ∷ ys) (ih.1))

  -- A pool that can be used, whatever calls it has had, takes all the inputs of a `map`, in their
  -- order, and of as many inputs as it has loops it sends one to each loop.
  pub map_inputs-fair :
      {p : Pool Cluster Exn} (inside : Bool) (xs : List ℕ)
      → Reach Cluster Exn p
      → usable Cluster Exn inside p ≡ true
      → (ds : List (Dispatch Cluster Exn × ℕ)) × ((map_inputs Cluster Exn inside xs p).0 ≡ some ds)
        × (map (λ d. d.1) ds ≡ xs)
        × (length xs ≡ p.n → (i : ℕ) → i < p.n → count i (loops_of ds) ≡ 1)
  unfolding map_inputs
  map_inputs-fair {p} inside xs r u =
      let s = Reach-IsSound Cluster Exn r in
      let o = usable-open p.closed p.started inside u in
      let turn = s.1 (o.0) in
      let sharded = map_loop-turns xs p (s.0, turn.0, turn.1, s.2 (o.0) (o.1)) in
      (
        (map_loop Cluster Exn xs p).0,
        rw (u, map_inputs) refl,
        sharded.1,
        λ l i h.
            ap (count i) (sharded.0)
            ∙ (ap (λ k. count i (turns_of k p.rr)) l
                ∙ (count-turns_of p.n p.n p.rr i (turn.0) (turn.1) (omega arith) h
                    ∙ ground (arith, turn.1, h))),
      )
