-- ===== src/Batch/Builder/Range.antt =====
-- `on_partition_range` of aerospike_sdk/query_shared.py, which counts partitions from a first one up
-- to an excluded last one.
use aerospike_client_python.Base.{
  or_false, ℕ, ◌+◌, ◌-◌, ◌≤◌, ◌<◌, ◌≡◌, refl, ℤ, pos, true, false, ◌&&◌, ◌||◌, some, leb, ltb,
  arith, Bool-cases, inl, inr,
}
use aerospike_client_python.Base.Int.{ltb_ℤ, leb_ℤ}
use aerospike_client_python.Batch.Native.{Native, IsLawful}
use aerospike_client_python.Batch.Builder.{
  Error, value_error, Builder, done, raised, on_partition_range,
}

module _ (N : Native) where
  -- With range filters that hold the range they were built from, a range of partitions from 0 to
  -- 4096 that is not empty is accepted, and a partition lies in the filter that is stored exactly
  -- when it lies in the range.
  pub on_partition_range_accepts :
      (L : IsLawful N) (s e : ℕ) (b : Builder N)
      → s < e
      → e ≤ 4096
      → (pf : N.PartitionFilter) × (on_partition_range N (pos s) (pos e) b
          ≡ done (record b { partition_filter = some pf }))
        × ((p : ℕ) → (leb (N.begin pf) p && ltb p (N.begin pf + N.count pf)) ≡ (leb s p && ltb p e))
  unfolding on_partition_range
  on_partition_range_accepts L s e b h k = (
    N.by_range s (e - s),
    ground arith,
    λ p.
        let last : s + (e - s) ≡ e = omega arith in
        rw (L.begin-by_range s (e - s), L.count-by_range s (e - s), last) refl,
  )

  -- Every range that is empty or leaves 0 to 4096 is refused, and the builder is left as it was.
  pub on_partition_range_refuses :
      (s e : ℤ) (b : Builder N)
      → (ltb_ℤ s (pos 0) || (leb_ℤ e s || ltb_ℤ (pos 4096) e)) ≡ true
      → (error : Error) × (on_partition_range N s e b ≡ raised error b)
  unfolding on_partition_range
  on_partition_range_refuses s e b h = elim (Bool-cases (ltb_ℤ s (pos 0) || leb_ℤ (pos 4096) s)) [
    | inl p ↦ (value_error "Start partition must be in range 0-4095", rw p refl)
    | inr p ↦ elim (Bool-cases (ltb_ℤ e (pos 1) || ltb_ℤ (pos 4096) e)) [
      | inl q ↦ (value_error "End partition must be in range 1-4096", rw (p, q) refl)
      | inr q ↦ elim (Bool-cases (leb_ℤ e s)) [
        | inl r ↦ (value_error "Start partition must be < end partition", rw (p, q, r) refl)
        | inr r ↦
            let below : ltb_ℤ s (pos 0) ≡ false = (or_false _ _ p).0 in
            let above : ltb_ℤ (pos 4096) e ≡ false = (or_false _ _ q).1 in
            let valid : (ltb_ℤ s (pos 0) || (leb_ℤ e s || ltb_ℤ (pos 4096) e)) ≡ false =
              rw (below, r, above) refl in
            absurd (cc (h, valid))
      ]
    ]
  ]
