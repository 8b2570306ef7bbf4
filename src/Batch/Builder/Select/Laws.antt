-- ===== src/Batch/Builder/Select/Laws.antt =====
-- What `_select_keys` of aerospike_sdk/query_shared.py selects, over the chain as one list of keys.
use aerospike_client_python.Base.{
  ℕ, zero, suc, ◌-◌, ◌≡◌, refl, sym, ◌∙◌, ap, ◌⊎◌, true, false, Option, none, some, List, [], ◌∷◌,
  ◌++◌, any, keep, keep-append, take, length, leb, arith, Bool-cases, inl, inr, append-nil,
}
use aerospike_client_python.Batch.Native.{Native}
use aerospike_client_python.Batch.Spec.{OperationSpec}
use aerospike_client_python.Batch.Builder.{Error, value_error, Builder, done, raised}
use aerospike_client_python.Batch.Builder.Select.{
  changes, in_range, narrow, narrow_by, cut_to, cut_to_limit, write_message, resume_message,
  resumes, select_keys,
}

take-append_short :
    {A : Type 0} (n : ℕ) (xs ys : List A) → leb n (length xs) ≡ true → take n (xs ++ ys) ≡ take n xs
take-append_short zero xs ys h = refl
take-append_short (suc n) [] ys h = absurd (ground arith)
take-append_short (suc n) (x ∷ xs) ys h = ap (◌∷◌ x) (take-append_short n xs ys (ground arith))

take-append_long :
    {A : Type 0} (n : ℕ) (xs ys : List A)
    → leb n (length xs) ≡ false
    → take n (xs ++ ys) ≡ xs ++ take (n - length xs) ys
take-append_long zero xs ys h = absurd (ground arith)
take-append_long (suc n) [] ys h = let e : suc n ≡ suc n - 0 = omega arith in ap (λ k. take k ys) e
take-append_long (suc n) (x ∷ xs) ys h =
    let e : n - length xs ≡ suc n - suc (length xs) = omega arith in
    ap (◌∷◌ x) (take-append_long n xs ys (ground arith) ∙ ap (λ k. xs ++ take k ys) e)

take_nil : {A : Type 0} (n : ℕ) → take {A = A} n [] ≡ []
take_nil zero = refl
take_nil (suc n) = refl

module _ (N : Native) where
  -- The keys of a chain, in chain order.
  abbrev pub chain_keys : List (OperationSpec N) → List N.Key
  chain_keys [] = []
  chain_keys (spec ∷ specs) = spec.keys ++ chain_keys specs

  chain_keys-narrow :
      (pf : N.PartitionFilter) (specs : List (OperationSpec N))
      → chain_keys (narrow N pf specs) ≡ keep (in_range N pf) (chain_keys specs)
  unfolding narrow
  chain_keys-narrow pf [] = refl
  chain_keys-narrow pf (spec ∷ specs) =
      ground (
        arith,
        keep-append (in_range N pf) spec.keys (chain_keys specs),
        chain_keys-narrow pf specs,
      )

  chain_keys-cut_to :
      (n : ℕ) (specs : List (OperationSpec N))
      → chain_keys (cut_to N n specs) ≡ take n (chain_keys specs)
  unfolding cut_to
  chain_keys-cut_to n [] = sym (take_nil n)
  chain_keys-cut_to n (spec ∷ specs) = elim (Bool-cases (leb n (length spec.keys))) [
    | inl enough ↦
        rw enough (append-nil _ ∙ sym (take-append_short n spec.keys (chain_keys specs) enough))
    | inr more ↦ rw more (
        ap (◌++◌ spec.keys) (chain_keys-cut_to (n - length spec.keys) specs)
        ∙ sym (take-append_long n spec.keys (chain_keys specs) more))
  ]

  -- The keys in the filter's range, up to the limit.
  abbrev pub selected : Option ℕ → Option N.PartitionFilter → List N.Key → List N.Key
  selected none none keys = keys
  selected none (some pf) keys = keep (in_range N pf) keys
  selected (some n) none keys = take n keys
  selected (some n) (some pf) keys = take n (keep (in_range N pf) keys)

  chain_keys-cut_to_limit :
      (limit : Option ℕ) (filter : Option N.PartitionFilter) (specs : List (OperationSpec N))
      → chain_keys (cut_to_limit N limit (narrow_by N filter specs))
        ≡ selected limit filter (chain_keys specs)
  chain_keys-cut_to_limit none none specs = refl
  chain_keys-cut_to_limit none (some pf) specs = chain_keys-narrow pf specs
  chain_keys-cut_to_limit (some n) none specs = chain_keys-cut_to n specs
  chain_keys-cut_to_limit (some n) (some pf) specs =
      chain_keys-cut_to n (narrow N pf specs) ∙ ap (take n) (chain_keys-narrow pf specs)

  -- A chain of reads that is bounded by a partition filter without resume state or by a limit
  -- keeps, in chain order, exactly the keys in the filter's range, up to the limit.
  pub chain_keys-select_keys :
      (b : Builder N)
      → any (changes N) b.specs ≡ false
      → resumes N b.partition_filter ≡ false
      → (b' : Builder N) × (select_keys N b ≡ done b')
        × (chain_keys b'.specs ≡ selected b.limit b.partition_filter (chain_keys b.specs))
  unfolding select_keys
  chain_keys-select_keys b reads fresh = (
    record b {
      keys_selected = true;
      specs = cut_to_limit N b.limit (narrow_by N b.partition_filter b.specs);
    },
    rw (reads, fresh),
    chain_keys-cut_to_limit b.limit b.partition_filter b.specs,
  )

  -- A chain that writes or calls a UDF, or a filter with resume state, is refused, and no segment
  -- is touched.
  pub select_keys_refuses :
      (b : Builder N)
      → (any (changes N) b.specs ≡ true) ⊎ (resumes N b.partition_filter ≡ true)
      → (e : Error) × (select_keys N b ≡ raised e (record b { keys_selected = true }))
  unfolding select_keys
  select_keys_refuses b h = elim (Bool-cases (any (changes N) b.specs)) [
    | inl p ↦ (value_error write_message, rw p)
    | inr p ↦ elim h [
      | inl q ↦ absurd (cc (p, q))
      | inr q ↦ (value_error resume_message, rw (p, q))
    ]
  ]
