-- ===== src/Pool/Laws.antt =====
-- What a pool of aerospike_sdk/aio/pool.py holds while it can be used.
use aerospike_client_python.Base.{
  ℕ, zero, suc, ◌%◌, ◌<◌, Bool, true, false, not, ◌&&◌, ◌==◌, length, get_elem?, Option, none, some,
  List, [], ◌∷◌, ◌≡◌, refl, sym, ap, subst, ◌++◌, ◌∙◌, Bool-cases, inl, inr, arith,
}
use aerospike_client_python.Pool.{
  Pool, init, start, aclose, run, map_inputs, map_loop, take_turn, next, following, Turns, turns,
  usable, Connected, connected, failed, runtime_error, stop_iteration, connect_all, clusters,
  first_error, or_count, at_index, to, refused, pick_or_turn,
}

pub usable-open :
    (closed started inside : Bool)
    → (not closed && started && not inside) ≡ true
    → (closed ≡ false) × (started ≡ true)
usable-open false true inside h = (refl, refl)
usable-open false false inside h = absurd (cc h)
usable-open true started inside h = absurd (cc h)

abbrev or_zero : Option ℕ → ℕ
or_zero none = 0
or_zero (some n) = n

module _ (Cluster Exn : Type 0) where
  -- A connect gives one result for each loop.
  abbrev pub IsComplete : (ℕ → List (Connected Cluster Exn)) → Type 0
  IsComplete connect = (n : ℕ) → length (connect n) ≡ n

  -- A pool after calls of its methods, in any order.
  pub data Reach : Pool Cluster Exn → Type 0 where
    by_init :
        (loop_count : Option ℕ) (per_client_runtime : Option Bool) (cpus : Option ℕ) (gil : Bool)
        → Reach (init Cluster Exn loop_count per_client_runtime cpus gil)
    by_start :
        {p : Pool Cluster Exn} (connect : ℕ → List (Connected Cluster Exn))
        → IsComplete connect
        → Reach p
        → Reach (start Cluster Exn connect p).1
    by_aclose : {p : Pool Cluster Exn} → Reach p → Reach (aclose Cluster Exn p)
    by_run :
        {p : Pool Cluster Exn} (inside : Bool) (pick : Option ℕ)
        → Reach p
        → Reach (run Cluster Exn inside pick p).1
    by_map :
        {p : Pool Cluster Exn} (inside : Bool) (inputs : List ℕ)
        → Reach p
        → Reach (map_inputs Cluster Exn inside inputs p).1

  -- An open pool has a turn in range, and a started one a cluster for each loop.
  abbrev pub IsSound : Pool Cluster Exn → Type 0
  IsSound p =
      (0 < p.n)
      × (p.closed ≡ false → (p.rr.size ≡ p.n) × (p.rr.turn < p.n))
      × (p.closed ≡ false → p.started ≡ true → length p.members ≡ p.n)

  take_turn-none :
      (p : Pool Cluster Exn)
      → (p.rr.size == 0) ≡ true
      → take_turn Cluster Exn p ≡ (refused stop_iteration, p)
  unfolding take_turn next
  take_turn-none p q = rw (q, take_turn) refl

  pub take_turn-some :
      (p : Pool Cluster Exn)
      → (p.rr.size == 0) ≡ false
      → take_turn Cluster Exn p
        ≡ (at_index Cluster Exn p.rr.turn p.members, record p { rr = following p.rr })
  unfolding take_turn next
  take_turn-some p q = rw (q, take_turn) refl

  pub following-turn : (t : Turns) (n : ℕ) → t.size ≡ n → t.turn < n → (following t).turn < n
  following-turn t n e h = elim (Bool-cases (suc t.turn == t.size)) [
    | inl q ↦ rw q (omega (arith, h))
    | inr q ↦ rw q (ground arith)
  ]

  take_turn-IsSound : (p : Pool Cluster Exn) → IsSound p → IsSound (take_turn Cluster Exn p).1
  take_turn-IsSound p s = elim (Bool-cases (p.rr.size == 0)) [
    | inl q ↦ subst (λ r. IsSound r.1) (sym (take_turn-none p q)) s
    | inr q ↦
        subst (λ r. IsSound r.1) (sym (take_turn-some p q))
          (s.0, λ c. ((s.1 c).0, following-turn p.rr p.n ((s.1 c).0) ((s.1 c).1)), s.2)
  ]

  length-clusters :
      (results : List (Connected Cluster Exn))
      → first_error Cluster Exn results ≡ none
      → length (clusters Cluster Exn results) ≡ length results
  length-clusters [] h = refl
  length-clusters (connected c ∷ results) h = ap suc (length-clusters results h)
  length-clusters (failed e ∷ results) h = absurd (cc h)

  or_count-pos : (o : Option ℕ) (d : ℕ) → 0 < d → 0 < or_count o d
  or_count-pos none d h = h
  or_count-pos (some n) d h = ground arith

  start-IsSound :
      (connect : ℕ → List (Connected Cluster Exn)) (p : Pool Cluster Exn)
      → IsComplete connect
      → IsSound p
      → IsSound (start Cluster Exn connect p).1
  unfolding start
  start-IsSound connect p k s = elim (Bool-cases p.started) [
    | inl a ↦ subst (λ r. IsSound r.1) (sym (refuses a)) s
    | inr a ↦ elim (Bool-cases p.closed) [
      | inl b ↦ subst (λ r. IsSound r.1) (sym (refuses_closed a b)) s
      | inr b ↦
          subst (λ r. IsSound r.1) (sym (connects a b))
            (go (first_error Cluster Exn (connect p.n)) refl)
    ]
  ]
    where
      refuses : p.started ≡ true → start Cluster Exn connect p ≡ (some runtime_error, p)
      refuses a = rw (a, start) refl

      refuses_closed :
          p.started ≡ false
          → p.closed ≡ true
          → start Cluster Exn connect p ≡ (some runtime_error, p)
      refuses_closed a b = rw (a, b, start) refl

      connects :
          p.started ≡ false
          → p.closed ≡ false
          → start Cluster Exn connect p
            ≡ connect_all Cluster Exn (connect p.n) p (first_error Cluster Exn (connect p.n))
      connects a b = rw (a, b, start) refl

      go :
          (o : Option Exn)
          → first_error Cluster Exn (connect p.n) ≡ o
          → IsSound (connect_all Cluster Exn (connect p.n) p o).1
      go none e = (s.0, s.1, λ c d. length-clusters (connect p.n) e ∙ k p.n)
      go (some x) e = s

  map_loop-IsSound :
      (xs : List ℕ) (p : Pool Cluster Exn) → IsSound p → IsSound (map_loop Cluster Exn xs p).1
  unfolding map_loop
  map_loop-IsSound [] p s = s
  map_loop-IsSound (x ∷ xs) p s =
      map_loop-IsSound xs (take_turn Cluster Exn p).1 (take_turn-IsSound p s)

  aclose-IsSound : (p : Pool Cluster Exn) → IsSound p → IsSound (aclose Cluster Exn p)
  unfolding aclose
  aclose-IsSound p s = elim (Bool-cases p.closed) [
    | inl a ↦ subst IsSound (sym (again a)) s
    | inr a ↦ subst IsSound (sym (closes a)) (s.0, λ e. absurd (cc e), λ e _. absurd (cc e))
  ]
    where
      again : p.closed ≡ true → aclose Cluster Exn p ≡ p
      again a = rw (a, aclose) refl

      closes :
          p.closed ≡ false
          → aclose Cluster Exn p ≡ record p {
            closed = true;
            threads = 0;
            members = [];
            rr = turns 0;
            closed_members = p.closed_members ++ p.members;
          }
      closes a = rw (a, aclose) refl

  run-used :
      (inside : Bool) (pick : Option ℕ) (p : Pool Cluster Exn)
      → usable Cluster Exn inside p ≡ true
      → run Cluster Exn inside pick p ≡ pick_or_turn Cluster Exn pick p
  unfolding run
  run-used inside pick p u = rw (u, run) refl

  run-refused :
      (inside : Bool) (pick : Option ℕ) (p : Pool Cluster Exn)
      → usable Cluster Exn inside p ≡ false
      → run Cluster Exn inside pick p ≡ (refused runtime_error, p)
  unfolding run
  run-refused inside pick p u = rw (u, run) refl

  run-IsSound :
      (inside : Bool) (pick : Option ℕ) (p : Pool Cluster Exn)
      → IsSound p
      → IsSound (run Cluster Exn inside pick p).1
  unfolding pick_or_turn
  run-IsSound inside pick p s = elim (Bool-cases (usable Cluster Exn inside p)) [
    | inl u ↦ subst (λ r. IsSound r.1) (sym (run-used inside pick p u)) (go pick)
    | inr u ↦ subst (λ r. IsSound r.1) (sym (run-refused inside pick p u)) s
  ]
    where
      go : (pick : Option ℕ) → IsSound (pick_or_turn Cluster Exn pick p).1
      go none = take_turn-IsSound p s
      go (some i) = s

  map_inputs-IsSound :
      (inside : Bool) (xs : List ℕ) (p : Pool Cluster Exn)
      → IsSound p
      → IsSound (map_inputs Cluster Exn inside xs p).1
  unfolding map_inputs
  map_inputs-IsSound inside xs p s = elim (Bool-cases (usable Cluster Exn inside p)) [
    | inl u ↦ subst (λ r. IsSound r.1) (sym (maps u)) (map_loop-IsSound xs p s)
    | inr u ↦ subst (λ r. IsSound r.1) (sym (refuses u)) s
  ]
    where
      maps :
          usable Cluster Exn inside p ≡ true
          → map_inputs Cluster Exn inside xs p
            ≡ (some (map_loop Cluster Exn xs p).0, (map_loop Cluster Exn xs p).1)
      maps u = rw (u, map_inputs) refl

      refuses : usable Cluster Exn inside p ≡ false → map_inputs Cluster Exn inside xs p ≡ (none, p)
      refuses u = rw (u, map_inputs) refl

  pub Reach-IsSound : {p : Pool Cluster Exn} → Reach p → IsSound p
  unfolding init
  Reach-IsSound (by_init l r c g) =
      let positive = or_count-pos l (or_count c 4) (or_count-pos c 4 (omega arith)) in
      (positive, λ _. (refl, positive), λ _ e. absurd (cc e))
  Reach-IsSound (by_start connect k r) = start-IsSound connect _ k (Reach-IsSound r)
  Reach-IsSound (by_aclose {p} r) = aclose-IsSound p (Reach-IsSound r)
  Reach-IsSound (by_run {p} inside pick r) = run-IsSound inside pick p (Reach-IsSound r)
  Reach-IsSound (by_map {p} inside xs r) = map_inputs-IsSound inside xs p (Reach-IsSound r)

  pub get_elem?-some :
      (xs : List Cluster) (i : ℕ) → i < length xs → (c : Cluster) × (get_elem? xs i ≡ some c)
  get_elem?-some [] i h = absurd (omega (arith, h))
  get_elem?-some (x ∷ xs) zero h = (x, refl)
  get_elem?-some (x ∷ xs) (suc i) h = get_elem?-some xs i (omega (arith, h))

  -- Whatever calls a pool has had, one that can be used sends a call to a cluster that it holds: the
  -- one at the index that is asked for, modulo the number of loops, or at a turn in range.
  pub run-to :
      {p : Pool Cluster Exn} (inside : Bool) (pick : Option ℕ)
      → Reach p
      → usable Cluster Exn inside p ≡ true
      → (i : ℕ) × (c : Cluster) × ((run Cluster Exn inside pick p).0 ≡ to i c)
        × (i < p.n)
        × (get_elem? p.members i ≡ some c)
        × ((k : ℕ) → pick ≡ some k → i ≡ k % p.n)
  unfolding pick_or_turn
  run-to {p} inside pick r u =
      subst
        (λ o.
          (i : ℕ) × (c : Cluster) × (o.0 ≡ to i c)
          × (i < p.n)
          × (get_elem? p.members i ≡ some c)
          × ((k : ℕ) → pick ≡ some k → i ≡ k % p.n))
        (sym (run-used inside pick p u)) (go pick)
    where
      s : IsSound p
      s = Reach-IsSound r

      open_ : (p.closed ≡ false) × (p.started ≡ true)
      open_ = usable-open p.closed p.started inside u

      go :
          (pick : Option ℕ)
          → (i : ℕ) × (c : Cluster) × ((pick_or_turn Cluster Exn pick p).0 ≡ to i c)
            × (i < p.n)
            × (get_elem? p.members i ≡ some c)
            × ((k : ℕ) → pick ≡ some k → i ≡ k % p.n)
      go (some k) =
          let bound : k % p.n < p.n = grind (arith, s.0) in
          let here =
            get_elem?-some p.members (k % p.n) (omega (arith, bound, s.2 (open_.0) (open_.1))) in
          (
            k % p.n,
            here.0,
            rw (here.1, at_index) refl,
            bound,
            here.1,
            λ j e. ap (λ o. or_zero o % p.n) e,
          )
      go none =
          let turn = s.1 (open_.0) in
          let some_turn : (p.rr.size == 0) ≡ false = ground (arith, turn.0, s.0) in
          let here =
            get_elem?-some p.members p.rr.turn (omega (arith, turn.1, s.2 (open_.0) (open_.1))) in
          (
            p.rr.turn,
            here.0,
            ap (λ r. r.0) (take_turn-some p some_turn) ∙ rw (here.1, at_index) refl,
            turn.1,
            here.1,
            λ k e. absurd (cc e),
          )
