-- ===== src/Tests/Pool.antt =====
-- A pool of two loops that has been started and used once.
use aerospike_client_python.Base.{
  ℕ, suc, ◌<◌, ◌%◌, true, false, Option, none, some, List, [], ◌∷◌, length, get_elem?, ◌≡◌, refl,
  ap, zero,
}
use aerospike_client_python.Pool.{Pool, init, start, run, Connected, connected, to, take_turn, next}
use aerospike_client_python.Pool.Laws.{Reach, by_init, by_start, by_run, run-to}

-- Every connect succeeds, and a cluster is its number from the end.
abbrev all_connect : ℕ → List (Connected ℕ ℕ)
all_connect zero = []
all_connect (suc n) = connected n ∷ all_connect n

all_connect-length : (n : ℕ) → length (all_connect n) ≡ n
all_connect-length zero = refl
all_connect-length (suc n) = ap suc (all_connect-length n)

abbrev two_loops : Pool ℕ ℕ
unfolding init start run take_turn next
two_loops = (run ℕ ℕ false none (start ℕ ℕ all_connect (init ℕ ℕ (some 2) none none true)).1).1

two_loops-Reach : Reach ℕ ℕ two_loops
unfolding two_loops
two_loops-Reach =
    by_run false none (by_start all_connect all_connect-length (by_init (some 2) none none true))

run-to_example :
    (i : ℕ) × (c : ℕ) × ((run ℕ ℕ false (some 5) two_loops).0 ≡ to i c)
    × (i < two_loops.n)
    × (get_elem? two_loops.members i ≡ some c)
    × ((k : ℕ) → ◌≡◌ {A = Option ℕ} (some 5) (some k) → i ≡ k % two_loops.n)
unfolding two_loops
run-to_example = run-to ℕ ℕ false (some 5) two_loops-Reach refl
