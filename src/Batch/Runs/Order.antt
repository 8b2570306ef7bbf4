-- ===== src/Batch/Runs/Order.antt =====
-- The records after a chain is sent in the runs of `_spec_batch_runs`, where the server may apply the
-- rows of one batch in any order (aerospike_sdk/query_shared.py, `_specs_overlap_on_a_key`).
use mathlib.Core.List.{Permᴰ}
use aerospike_client_python.Base.{
  or_false, ◌≡◌, refl, sym, ◌∙◌, ap, ap₂, fun_ext, ◌↔◌, ◌⊎◌, inl, inr, true, false, List, [], ◌∷◌,
  ◌++◌, append_assoc, arith, any-append, flatten, All, if◌then◌else◌, Bool-cases, eq_iff,
}
use aerospike_client_python.Batch.Native.{Native}
use aerospike_client_python.Batch.Runs.{
  Ident, ident_eq, holds, meets, Spec, spec_idents, spec_batch_runs,
}
use aerospike_client_python.Batch.Runs.Split.{
  chain_idents, KeysApart, flatten-spec_batch_runs, spec_batch_runs-KeysApart,
}

pub ident_eq_iff : (a b : Ident) → (ident_eq a b ≡ true) ↔ (a ≡ b)
ident_eq_iff (n, d) (m, e) = ground (arith, eq_iff n m, eq_iff d e)

abbrev In : {A : Type 0} → A → List A → Type 0
In a [] = ⊥
In a (x ∷ xs) = (a ≡ x) ⊎ In a xs

In-append : {A : Type 0} (a : A) (xs ys : List A) → In a (xs ++ ys) → In a xs ⊎ In a ys
In-append a [] ys m = inr m
In-append a (x ∷ xs) ys (inl e) = inl (inl e)
In-append a (x ∷ xs) ys (inr m) = elim (In-append a xs ys m) [ inl l ↦ inl (inr l) | inr r ↦ inr r ]

In-perm : {A : Type 0} {xs ys : List A} (a : A) → Permᴰ xs ys → In a ys → In a xs
In-perm a Permᴰ.nil m = m
In-perm a (Permᴰ.cons e p) (inl h) = inl (h ∙ sym e)
In-perm a (Permᴰ.cons e p) (inr m) = inr (In-perm a p m)
In-perm a (Permᴰ.swap e f) (inl h) = inr (inl (h ∙ sym f))
In-perm a (Permᴰ.swap e f) (inr (inl h)) = inl (h ∙ sym e)
In-perm a (Permᴰ.swap e f) (inr (inr m)) = inr (inr m)
In-perm a (Permᴰ.trans p q) m = In-perm a p (In-perm a q m)

-- Two lists of keys that do not meet hold no key in common.
apart_lem :
    (xs ys : List Ident) (i : Ident)
    → meets xs ys ≡ false
    → holds xs i ≡ true
    → holds ys i ≡ true
    → ⊥
apart_lem xs [] i m hx hy = cc
apart_lem xs (y ∷ ys) i m hx hy =
    let parts : (holds xs y ≡ false) × (meets xs ys ≡ false) = or_false _ _ m in
    elim (Bool-cases (ident_eq i y)) [
      | inl same ↦ cc (ap (holds xs) ((ident_eq_iff i y).0 same), parts.0, hx)
      | inr other ↦ apart_lem xs ys i parts.1 hx (rw other at hy)
    ]

module _ (N : Native) {V : Type 0} (effect : Spec N → V → V) where
  -- What a batch sends for one key of one segment.
  abbrev Row : Type 0
  Row = Ident × Spec N

  rows_at : Spec N → List Ident → List Row
  rows_at spec [] = []
  rows_at spec (i ∷ is) = (i, spec) ∷ rows_at spec is

  -- The rows of a list of segments, in chain order.
  unfoldable pub rows : List (Spec N) → List Row
  unfolding rows_at
  rows [] = []
  rows (spec ∷ specs) = rows_at spec (spec_idents N spec) ++ rows specs

  -- The records of the server, by key. A row changes the record of its own key.
  abbrev pub Store : Type 0
  Store = Ident → V

  abbrev apply : Store → Row → Store
  apply σ (i, spec) j = if ident_eq i j then effect spec (σ j) else σ j

  pub run_rows : Store → List Row → Store
  run_rows σ [] = σ
  run_rows σ (r ∷ rs) = run_rows (apply σ r) rs

  -- Rows of one key belong to one segment.
  abbrev OneSegment : List Row → Type 0
  OneSegment rs = (r s : Row) → In r rs → In s rs → r.0 ≡ s.0 → r.1 ≡ s.1

  apply_comm :
      (σ : Store) (r s : Row) → (r.0 ≡ s.0 → r.1 ≡ s.1) → apply (apply σ r) s ≡ apply (apply σ s) r
  apply_comm σ (i, f) (k, g) h = fun_ext λ j. elim (Bool-cases (ident_eq i j)) [
    | inl p ↦ elim (Bool-cases (ident_eq k j)) [
      | inl q ↦
          let same : f ≡ g = h ((ident_eq_iff i j).0 p ∙ sym ((ident_eq_iff k j).0 q)) in
          rw (p, q, same)
      | inr q ↦ rw (p, q)
    ]
    | inr p ↦ rw p
  ]

  run_rows-perm :
      {xs ys : List Row} (σ : Store) → Permᴰ xs ys → OneSegment xs → run_rows σ xs ≡ run_rows σ ys
  unfolding run_rows
  run_rows-perm σ Permᴰ.nil h = refl
  run_rows-perm σ (Permᴰ.cons {l₁ = xs} {l₂ = ys} e p) h =
      ap (λ r. run_rows (apply σ r) xs) e ∙ run_rows-perm _ p (λ r s m n. h r s (inr m) (inr n))
  run_rows-perm σ (Permᴰ.swap {a = a} {b = b} {l = l} e f) h =
      ap (λ τ. run_rows τ l)
        (apply_comm σ a b (h a b (inl refl) (inr (inl refl)))
          ∙ ap₂ (λ r s. apply (apply σ r) s) f e)
  run_rows-perm σ (Permᴰ.trans p q) h =
      run_rows-perm σ p h ∙ run_rows-perm σ q (λ r s m n. h r s (In-perm r p m) (In-perm s p n))

  In-rows_at :
      (spec : Spec N) (is : List Ident) (r : Row)
      → In r (rows_at spec is)
      → (r.1 ≡ spec) × (holds is r.0 ≡ true)
  unfolding rows_at
  In-rows_at spec [] r m = absurd m
  In-rows_at spec (i ∷ is) r (inl e) =
      (ap (λ s. s.1) e, rw ((ident_eq_iff r.0 i).1 (ap (λ s. s.0) e)))
  In-rows_at spec (i ∷ is) r (inr m) =
      let rest = In-rows_at spec is r m in (rest.0, ground (arith, rest.1))

  In-rows :
      (specs : List (Spec N)) (r : Row)
      → In r (rows specs)
      → holds (chain_idents N specs) r.0 ≡ true
  unfolding rows
  In-rows [] r m = absurd m
  In-rows (spec ∷ specs) r m = elim (In-append r _ _ m) [
    | inl here ↦ rw (any-append, (In-rows_at spec (spec_idents N spec) r here).1)
    | inr later ↦ rw (any-append, In-rows specs r later) (ground arith)
  ]

  rows-OneSegment : (specs : List (Spec N)) → KeysApart N specs → OneSegment (rows specs)
  unfolding rows
  rows-OneSegment [] h r s m n e = absurd m
  rows-OneSegment (spec ∷ specs) h r s m n e = elim (In-append r _ _ m) [
    | inl rm ↦ elim (In-append s _ _ n) [
      | inl sn ↦ (In-rows_at spec is r rm).0 ∙ sym ((In-rows_at spec is s sn).0)
      | inr sn ↦ absurd (apart r s e rm sn)
    ]
    | inr rm ↦ elim (In-append s _ _ n) [
      | inl sn ↦ absurd (apart s r (sym e) sn rm)
      | inr sn ↦ rows-OneSegment specs h.1 r s rm sn e
    ]
  ]
    where
      is : List Ident
      is = spec_idents N spec

      apart : (r s : Row) → r.0 ≡ s.0 → In r (rows_at spec is) → In s (rows specs) → ⊥
      apart r s e rm sn =
          apart_lem is (chain_idents N specs) s.0 h.0
            (ap (holds is) (sym e) ∙ (In-rows_at spec is r rm).1) (In-rows specs s sn)

  run_rows-append :
      (σ : Store) (xs ys : List Row) → run_rows σ (xs ++ ys) ≡ run_rows (run_rows σ xs) ys
  unfolding run_rows
  run_rows-append σ [] ys = refl
  run_rows-append σ (x ∷ xs) ys = run_rows-append (apply σ x) xs ys

  rows-append : (xs ys : List (Spec N)) → rows (xs ++ ys) ≡ rows xs ++ rows ys
  unfolding rows
  rows-append [] ys = refl
  rows-append (x ∷ xs) ys = rw (rows-append xs ys, append_assoc)

  -- The server answered the batches one after the other, each with its rows in some order.
  abbrev pub Served : List (List (Spec N)) → List (List Row) → Type 0
  Served [] [] = Unit
  Served [] (_ ∷ _) = ⊥
  Served (_ ∷ _) [] = ⊥
  Served (run ∷ runs) (order ∷ orders) = Permᴰ (rows run) order × Served runs orders

  run_rows-Served :
      (σ : Store) (runs : List (List (Spec N))) (orders : List (List Row))
      → All (KeysApart N) runs
      → Served runs orders
      → run_rows σ (flatten orders) ≡ run_rows σ (rows (flatten runs))
  unfolding rows
  run_rows-Served σ [] [] h served = refl
  run_rows-Served σ [] (_ ∷ _) h served = absurd served
  run_rows-Served σ (_ ∷ _) [] h served = absurd served
  run_rows-Served σ (run ∷ runs) (order ∷ orders) h served =
      run_rows-append σ order (flatten orders)
      ∙ ap (λ τ. run_rows τ (flatten orders))
          (sym (run_rows-perm σ served.0 (rows-OneSegment run h.0)))
      ∙ run_rows-Served (run_rows σ (rows run)) runs orders h.1 served.1
      ∙ sym (
          ap (run_rows σ) (rows-append run (flatten runs))
          ∙ run_rows-append σ (rows run) (rows (flatten runs)))

  -- Whatever order the server picks for the keys inside each batch, sending the batches of a chain
  -- one after the other leaves every record as the segments applied one by one, in chain order,
  -- would.
  pub spec_batch_runs-in_order :
      (specs : List (Spec N)) (orders : List (List Row)) (σ : Store)
      → Served (spec_batch_runs N specs) orders
      → run_rows σ (flatten orders) ≡ run_rows σ (rows specs)
  spec_batch_runs-in_order specs orders σ served =
      run_rows-Served σ (spec_batch_runs N specs) orders (spec_batch_runs-KeysApart N specs) served
      ∙ ap (λ l. run_rows σ (rows l)) (flatten-spec_batch_runs N specs)
