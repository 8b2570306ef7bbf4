-- ===== src/Stream/Collect.antt =====
-- `collect` of aerospike_sdk/record_stream.py: the rows that iterating a stream to its end delivers.
use aerospike_client_python.Base.{
  ℕ, zero, suc, ◌-◌, ◌<◌, ◌≡◌, refl, ◌≢◌, sym, ap, Bool, true, false, Option, none, some, List, [],
  ◌∷◌, map, length, take, ltb, arith, Bool-cases, inl, inr, if◌then◌else◌,
}
use aerospike_client_python.Stream.{Server, Next, row, stopped, raised, Stream, reached, anext}

-- How a drain ends: with `StopAsyncIteration`, with another exception, or without fuel.
pub data Drained (Row : Type 0) : Type 0 where
  finished : List Row → Drained Row
  broken out_of_fuel : Drained Row

abbrev pub cons_row : {Row : Type 0} → Row → Drained Row → Drained Row
cons_row r (finished rows) = finished (r ∷ rows)
cons_row r broken = broken
cons_row r out_of_fuel = out_of_fuel

module _ (S : Server) where
  -- What one call of `__anext__` leads to; `again` is the rest of the loop.
  abbrev pub after : (Stream S → Drained S.Row) → Next S.Row × Stream S → Drained S.Row
  after again (row r, s) = cons_row r (again s)
  after again (stopped, s) = finished []
  after again (raised, s) = broken

  -- One unit of fuel for each call of `__anext__`.
  unfoldable pub drain : ℕ → Stream S → Drained S.Row
  drain zero s = out_of_fuel
  drain (suc fuel) s = after (λ t. drain fuel t) (anext S s)

  -- A stream yields at most its single result and its source, and then stops.
  unfoldable pub collect : Stream S → Drained S.Row
  unfolding drain
  collect s = drain (suc (suc (length s.source))) s

  -- A stream without a single result, at a place of its chunk.
  abbrev pub at : Stream S → Bool → List (Option S.Row) → ℕ → Stream S
  at s closed source counter = record s {
    closed = closed;
    single_result = none;
    source = source;
    counter = counter;
  }

  -- The rows that the limit leaves of a chunk, 0 being no limit.
  abbrev pub allowed : ℕ → ℕ → List S.Row → List S.Row
  allowed limit counter rows = if ltb 0 limit then take (limit - counter) rows else rows

  allowed_nil : (limit counter : ℕ) → allowed limit counter [] ≡ []
  allowed_nil limit counter = elim (Bool-cases (ltb 0 limit)) [
    | inl p ↦ rw p (take_nil (limit - counter))
    | inr p ↦ rw p refl
  ]
    where
      take_nil : (n : ℕ) → take {A = S.Row} n [] ≡ []
      take_nil zero = refl
      take_nil (suc n) = refl

  allowed-reached :
      (limit counter : ℕ) (rows : List S.Row)
      → reached S limit counter ≡ true
      → allowed limit counter rows ≡ []
  allowed-reached limit counter rows h =
      let positive : ltb 0 limit ≡ true = ground arith in
      let none_left : limit - counter ≡ 0 = ground arith in rw (positive, none_left) refl

  allowed_cons :
      (limit counter : ℕ) (r : S.Row) (rows : List S.Row)
      → reached S limit counter ≡ false
      → allowed limit counter (r ∷ rows) ≡ r ∷ allowed limit (suc counter) rows
  allowed_cons limit counter r rows h = elim (Bool-cases (ltb 0 limit)) [
    | inl p ↦
        let one_more : limit - counter ≡ suc (limit - suc counter) = ground arith in
        rw (p, one_more) refl
    | inr p ↦ rw p refl
  ]

  drain_rows :
      (s : Stream S) (rows : List S.Row) (counter fuel : ℕ)
      → length rows < fuel
      → drain fuel (at s false (map some rows) counter)
        ≡ finished (allowed s.chunk_limit counter rows)
  unfolding drain anext
  drain_rows s rows counter zero h = absurd (omega (arith, h))
  drain_rows s [] counter (suc fuel) h = ap finished (sym (allowed_nil s.chunk_limit counter))
  drain_rows s (r ∷ rows) counter (suc fuel) h =
      elim (Bool-cases (reached S s.chunk_limit counter)) [
        | inl p ↦ rw (p, allowed-reached s.chunk_limit counter (r ∷ rows) p) refl
        | inr p ↦
            rw (p, allowed_cons s.chunk_limit counter r rows p)
              (ap (cons_row r) (drain_rows s rows (suc counter) fuel (omega (arith, h))))
      ]

  length-map-some : (rows : List S.Row) → length (map some rows) ≡ length rows
  length-map-some [] = refl
  length-map-some (r ∷ rows) = ap suc (length-map-some rows)

  -- Collecting an open chunk that raises nothing delivers its rows in order, up to what the limit
  -- still allows, and ends.
  pub collect_lem :
      (s : Stream S) (rows : List S.Row) (counter : ℕ)
      → collect (at s false (map some rows) counter) ≡ finished (allowed s.chunk_limit counter rows)
  unfolding collect
  collect_lem s rows counter =
      drain_rows s rows counter (suc (suc (length (map some rows))))
        (omega (arith, length-map-some rows))

  cons_row-fuel : (r : S.Row) (d : Drained S.Row) → d ≢ out_of_fuel → cons_row r d ≢ out_of_fuel
  cons_row-fuel r (finished rows) h e = absurd (cc e)
  cons_row-fuel r broken h e = absurd (cc e)
  cons_row-fuel r out_of_fuel h e = h refl

  finished-fuel : (rows : List S.Row) → finished rows ≢ out_of_fuel
  finished-fuel rows e = absurd (cc e)

  broken-fuel : ◌≢◌ {A = Drained S.Row} broken out_of_fuel
  broken-fuel e = absurd (cc e)

  drain-fuel :
      (s : Stream S) (closed : Bool) (source : List (Option S.Row)) (counter fuel : ℕ)
      → length source < fuel
      → drain fuel (at s closed source counter) ≢ out_of_fuel
  unfolding drain anext
  drain-fuel s closed source counter zero h = absurd (omega (arith, h))
  drain-fuel s true source counter (suc fuel) h = finished-fuel []
  drain-fuel s false [] counter (suc fuel) h = finished-fuel []
  drain-fuel s false (none ∷ rest) counter (suc fuel) h = broken-fuel
  drain-fuel s false (some r ∷ rest) counter (suc fuel) h =
      elim (Bool-cases (reached S s.chunk_limit counter)) [
        | inl p ↦ rw p (finished-fuel [])
        | inr p ↦ rw p (
            cons_row-fuel r (drain fuel (at s false rest (suc counter)))
              (drain-fuel s false rest (suc counter) fuel (omega (arith, h))))
      ]

  -- Collecting any stream ends, by a list or by an exception.
  pub collect_ends : (s : Stream S) → collect s ≢ out_of_fuel
  unfolding collect drain anext
  collect_ends s = go s.single_result s.closed
    where
      go :
          (o : Option S.Row) (c : Bool)
          → collect (record s { single_result = o; closed = c }) ≢ out_of_fuel
      go none c = drain-fuel s c s.source s.counter (suc (suc (length s.source))) (omega arith)
      go (some r) true = finished-fuel []
      go (some r) false = finished-fuel (r ∷ [])
