-- ===== src/Dispatch/Apply/Slots.antt =====
-- Writing answers into their slots, whatever the order.
use aerospike_client_python.Base.{
  ℕ, zero, suc, ◌==◌, ==_iff, Bool, true, false, any, Bool-cases, is_some, Option, none, some, List,
  get_elem?, [], ◌∷◌, map, All, ◌≡◌, refl, sym, ap, ap₂, ◌∙◌, ◌⊎◌, inl, inr,
}
use aerospike_client_python.Batch.Native.{Native}
use aerospike_client_python.Dispatch.Apply.{set_at, write_back}

module _ (N : Native) {Record : Type 0} (own : N.Key → Record) where
  -- Every slot is empty or holds the answer for its key.
  abbrev pub Partial : List N.Key → List (Option Record) → Type 0
  Partial [] [] = Unit
  Partial [] (o ∷ os) = ⊥
  Partial (key ∷ keys) [] = ⊥
  Partial (key ∷ keys) (o ∷ os) = ((o ≡ none) ⊎ (o ≡ some (own key))) × Partial keys os

  abbrev pub is_filled : ℕ → List (Option Record) → Bool
  is_filled i [] = false
  is_filled zero (o ∷ os) = is_some o
  is_filled (suc i) (o ∷ os) = is_filled i os

  pub blank-Partial : (keys : List N.Key) → Partial keys (map (λ key. none) keys)
  blank-Partial [] = tt
  blank-Partial (key ∷ keys) = (inl refl, blank-Partial keys)

  key_of : N.Key → Option N.Key → N.Key
  key_of d none = d
  key_of d (some key) = key

  set_at-Partial :
      (keys : List N.Key) (i : ℕ) (key : N.Key) (os : List (Option Record))
      → Partial keys os
      → get_elem? keys i ≡ some key
      → Partial keys (set_at N i (own key) os)
  unfolding key_of
  set_at-Partial [] i key os h e = absurd (cc e)
  set_at-Partial (k ∷ keys) i key [] h e = absurd h
  set_at-Partial (k ∷ keys) zero key (o ∷ os) h e =
      (inr (ap (λ x. some (own x)) (sym (ap (key_of k) e))), h.1)
  set_at-Partial (k ∷ keys) (suc i) key (o ∷ os) h e = (h.0, set_at-Partial keys i key os h.1 e)

  set_at_fills :
      (keys : List N.Key) (i : ℕ) (key : N.Key) (os : List (Option Record))
      → Partial keys os
      → get_elem? keys i ≡ some key
      → is_filled i (set_at N i (own key) os) ≡ true
  set_at_fills [] i key os h e = absurd (cc e)
  set_at_fills (k ∷ keys) i key [] h e = absurd h
  set_at_fills (k ∷ keys) zero key (o ∷ os) h e = refl
  set_at_fills (k ∷ keys) (suc i) key (o ∷ os) h e = set_at_fills keys i key os h.1 e

  set_at_keeps :
      (j i : ℕ) (r : Record) (os : List (Option Record))
      → is_filled i os ≡ true
      → is_filled i (set_at N j r os) ≡ true
  set_at_keeps j i r [] h = absurd (cc h)
  set_at_keeps zero zero r (o ∷ os) h = refl
  set_at_keeps zero (suc i) r (o ∷ os) h = h
  set_at_keeps (suc j) zero r (o ∷ os) h = h
  set_at_keeps (suc j) (suc i) r (o ∷ os) h = set_at_keeps j i r os h

  pub full :
      (keys : List N.Key) (os : List (Option Record))
      → Partial keys os
      → ((i : ℕ) (key : N.Key) → get_elem? keys i ≡ some key → is_filled i os ≡ true)
      → os ≡ map (λ key. some (own key)) keys
  full [] [] h f = refl
  full [] (o ∷ os) h f = absurd h
  full (key ∷ keys) [] h f = absurd h
  full (key ∷ keys) (o ∷ os) h f =
      ap₂ ◌∷◌ (elim h.0 [ inl e ↦ absurd (cc (ap is_some (sym e) ∙ f zero key refl)) | inr e ↦ e ])
        (full keys os h.1 (λ i k e. f (suc i) k e))

  -- Each pair is an index with its key.
  abbrev pub Right : List N.Key → List (ℕ × N.Key) → Type 0
  Right keys pairs = All (λ pair. get_elem? keys pair.0 ≡ some pair.1) pairs

  abbrev pub answers : List (ℕ × N.Key) → List Record
  answers pairs = map (λ pair. own pair.1) pairs

  pub write_back-Partial :
      (keys : List N.Key) (pairs : List (ℕ × N.Key)) (os : List (Option Record))
      → Right keys pairs
      → Partial keys os
      → Partial keys (write_back N pairs (answers pairs) os)
  write_back-Partial keys [] os r h = h
  write_back-Partial keys ((i, key) ∷ pairs) os r h =
      write_back-Partial keys pairs _ r.1 (set_at-Partial keys i key os h r.0)

  pub write_back_keeps :
      (i : ℕ) (pairs : List (ℕ × N.Key)) (os : List (Option Record))
      → is_filled i os ≡ true
      → is_filled i (write_back N pairs (answers pairs) os) ≡ true
  write_back_keeps i [] os h = h
  write_back_keeps i ((j, key) ∷ pairs) os h =
      write_back_keeps i pairs _ (set_at_keeps j i (own key) os h)

  pub write_back_fills :
      (keys : List N.Key) (i : ℕ) (pairs : List (ℕ × N.Key)) (os : List (Option Record))
      → Right keys pairs
      → Partial keys os
      → any (λ pair. i == pair.0) pairs ≡ true
      → is_filled i (write_back N pairs (answers pairs) os) ≡ true
  write_back_fills keys i [] os r h e = absurd (cc e)
  write_back_fills keys i ((j, key) ∷ pairs) os r h e = elim (Bool-cases (i == j)) [
    | inl same ↦ write_back_keeps i pairs _ (
        ap (λ n. is_filled n (set_at N j (own key) os)) ((==_iff i j).0 same)
        ∙ set_at_fills keys j key os h r.0)
    | inr other ↦
        write_back_fills keys i pairs _ r.1 (set_at-Partial keys j key os h r.0) (rw other at e)
  ]
