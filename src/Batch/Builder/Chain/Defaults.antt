-- ===== src/Batch/Builder/Chain/Defaults.antt =====
-- The defaults that `_apply_chain_defaults` of aerospike_sdk/query_shared.py gives a segment, and
-- `_select_keys` after it.
use aerospike_client_python.Base.{
  ℕ, ◌-◌, ◌≡◌, refl, ℤ, Option, none, some, List, [], ◌∷◌, keep, length, leb, Bool-cases, inl, inr,
  All,
}
use aerospike_client_python.Batch.Native.{Native}
use aerospike_client_python.Batch.Spec.{OperationSpec}
use aerospike_client_python.Batch.Builder.Select.{in_range, narrow, narrow_by, cut_to, cut_to_limit}
use aerospike_client_python.Batch.Builder.Chain.{or_default, with_defaults}

module _ (N : Native) where
  -- A segment that takes nothing more from the chain's defaults.
  pub record IsDefaulted (f : Option N.FilterExpression) (t : Option ℤ) (spec : OperationSpec N)
      : Type 0 where
    pub filter_kept : or_default spec.filter_expression f ≡ spec.filter_expression
    pub ttl_kept : or_default spec.ttl_seconds t ≡ spec.ttl_seconds

  or_default_twice : {A : Type 0} (x d : Option A) → or_default (or_default x d) d ≡ or_default x d
  or_default_twice none none = refl
  or_default_twice none (some d) = refl
  or_default_twice (some a) d = refl

  pub with_defaults-IsDefaulted :
      (f : Option N.FilterExpression) (t : Option ℤ) (specs : List (OperationSpec N))
      → All (IsDefaulted f t) (with_defaults N f t specs)
  with_defaults-IsDefaulted f t [] = tt
  with_defaults-IsDefaulted f t (spec ∷ specs) = (
    record {
      filter_kept = or_default_twice spec.filter_expression f;
      ttl_kept = or_default_twice spec.ttl_seconds t;
    },
    with_defaults-IsDefaulted f t specs,
  )

  pub with_defaults_id :
      (f : Option N.FilterExpression) (t : Option ℤ) (specs : List (OperationSpec N))
      → All (IsDefaulted f t) specs
      → with_defaults N f t specs ≡ specs
  with_defaults_id f t [] h = refl
  with_defaults_id f t (spec ∷ specs) h = λ i.
      record spec { filter_expression = h.0.filter_kept i; ttl_seconds = h.0.ttl_kept i }
      ∷ with_defaults_id f t specs h.1 i

  module _ (f : Option N.FilterExpression) (t : Option ℤ) where
    narrow-IsDefaulted :
        (pf : N.PartitionFilter) (specs : List (OperationSpec N))
        → All (IsDefaulted f t) specs
        → All (IsDefaulted f t) (narrow N pf specs)
    unfolding narrow
    narrow-IsDefaulted pf [] h = tt
    narrow-IsDefaulted pf (spec ∷ specs) h =
        go (keep (in_range N pf) spec.keys) (narrow-IsDefaulted pf specs h.1)
      where
        go :
            (keys : List N.Key)
            → All (IsDefaulted f t) (narrow N pf specs)
            → All (IsDefaulted f t) (elim keys [
              | [] ↦ narrow N pf specs
              | key ∷ keys ↦ record spec { keys = key ∷ keys } ∷ narrow N pf specs
            ])
        go [] ih = ih
        go (key ∷ keys) ih = (record { filter_kept = h.0.filter_kept; ttl_kept = h.0.ttl_kept }, ih)

    cut_to-IsDefaulted :
        (n : ℕ) (specs : List (OperationSpec N))
        → All (IsDefaulted f t) specs
        → All (IsDefaulted f t) (cut_to N n specs)
    unfolding cut_to
    cut_to-IsDefaulted n [] h = tt
    cut_to-IsDefaulted n (spec ∷ specs) h = elim (Bool-cases (leb n (length spec.keys))) [
      | inl p ↦ rw p (record { filter_kept = h.0.filter_kept; ttl_kept = h.0.ttl_kept }, tt)
      | inr p ↦ rw p (h.0, cut_to-IsDefaulted (n - length spec.keys) specs h.1)
    ]

    pub selected-IsDefaulted :
        (l : Option ℕ) (pf : Option N.PartitionFilter) (specs : List (OperationSpec N))
        → All (IsDefaulted f t) specs
        → All (IsDefaulted f t) (cut_to_limit N l (narrow_by N pf specs))
    selected-IsDefaulted none none specs h = h
    selected-IsDefaulted none (some pf) specs h = narrow-IsDefaulted pf specs h
    selected-IsDefaulted (some n) none specs h = cut_to-IsDefaulted n specs h
    selected-IsDefaulted (some n) (some pf) specs h =
        cut_to-IsDefaulted n (narrow N pf specs) (narrow-IsDefaulted pf specs h)
