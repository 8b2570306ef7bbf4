-- ===== src/Session/Coalesce/Isolation.antt =====
-- What a write that aerospike_sdk/aio/session.py buffers has to do with its window-mates.
use aerospike_client_python.Base.{
  ℕ, ◌==◌, Bool, true, false, any, Bool-cases, or_false, Option, none, some, Option-cases, List, [],
  ◌∷◌, ◌++◌, map, length, ◌≡◌, refl, sym, ap, ◌∙◌, inl, inr, append-nil, append_assoc,
  if◌then◌else◌, arith,
}
use aerospike_client_python.Session.Coalesce.{
  Fate, taken, failed, Loop, Client, is_done, resubmit_one, resubmit_writes_individually,
  write_outcome,
}

-- Futures that are all different.
abbrev pub Apart : List ℕ → Type 0
Apart [] = Unit
Apart (f ∷ fs) = (any (λ g. g == f) fs ≡ false) × Apart fs

module _ (Key Bins Exception : Type 0) (converts : Bins → Bool) (refusal : Bins → Exception) where
  -- What a direct write of a payload comes to.
  abbrev pub write_fate : Bins → Fate Exception
  write_fate b = if converts b then taken else failed (refusal b)

  abbrev pub outcomes : List ℕ → List Bins → List (ℕ × Fate Exception)
  outcomes [] bs = []
  outcomes (f ∷ fs) [] = []
  outcomes (f ∷ fs) (b ∷ bs) = (f, write_fate b) ∷ outcomes fs bs

  -- The exception of the first payload that does not convert.
  abbrev pub first_refusal : List Bins → Option Exception
  first_refusal [] = none
  first_refusal (b ∷ bs) =
      let rest = first_refusal bs in if converts b then rest else some (refusal b)

  -- A submission converts every payload before it takes any.
  abbrev pub ConvertsFirst : Client Key Bins Exception → Type 0
  ConvertsFirst C =
      (s : Loop Key Bins Exception) (ks : List Key) (fs : List ℕ) (bs : List Bins)
      → C.submit_write s ks fs bs ≡ first_refusal bs

  outcomes_taken :
      (fs : List ℕ) (bs : List Bins)
      → length bs ≡ length fs
      → first_refusal bs ≡ none
      → outcomes fs bs ≡ map (λ f. (f, taken)) fs
  outcomes_taken [] bs h e = refl
  outcomes_taken (f ∷ fs) [] h e = absurd (omega (arith, h))
  outcomes_taken (f ∷ fs) (b ∷ bs) h e = elim (Bool-cases (converts b)) [
    | inl c ↦ rw c (ap (◌∷◌ (f, taken)) (outcomes_taken fs bs (omega (arith, h)) (rw c at e)))
    | inr c ↦ absurd (cc (rw c at e))
  ]

  module _ (C : Client Key Bins Exception) (law : ConvertsFirst C) where
    -- One write that is not done yet: its fate, and which futures are done after it.
    resubmit_one-write_fate :
        (k : Key) (f : ℕ) (b : Bins) (s : Loop Key Bins Exception)
        → is_done Key Bins Exception f s ≡ false
        → let t = resubmit_one Key Bins Exception C k f b s in
          (t.write_fates ≡ s.write_fates ++ (f, write_fate b) ∷ [])
          × (t.done ≡ (if converts b then s.done else f ∷ s.done))
    resubmit_one-write_fate k f b s h = elim (Bool-cases (converts b)) [
      | inl c ↦
          let e : C.submit_write s (k ∷ []) (f ∷ []) (b ∷ []) ≡ none =
            law s (k ∷ []) (f ∷ []) (b ∷ []) ∙ rw c refl in
          rw (h, e, c) (refl, refl)
      | inr c ↦
          let e : C.submit_write s (k ∷ []) (f ∷ []) (b ∷ []) ≡ some (refusal b) =
            law s (k ∷ []) (f ∷ []) (b ∷ []) ∙ rw c refl in
          rw (h, e, c) (refl, refl)
    ]

    undone_after :
        (f : ℕ) (fs done : List ℕ) (c : Bool)
        → any (λ g. any (λ d. g == d) done) fs ≡ false
        → any (λ g. g == f) fs ≡ false
        → any (λ g. any (λ d. g == d) (if c then done else f ∷ done)) fs ≡ false
    undone_after f [] done c h k = refl
    undone_after f (g ∷ fs) done true h k = h
    undone_after f (g ∷ fs) done false h k =
        let p = or_false (any (λ d. g == d) done) (any (λ x. any (λ d. x == d) done) fs) h in
        let q = or_false (g == f) (any (λ x. x == f) fs) k in
        rw (q.0, p.0) (undone_after f fs done false p.1 q.1)

    resubmit-outcomes :
        (ks : List Key) (fs : List ℕ) (bs : List Bins) (s : Loop Key Bins Exception)
        → length ks ≡ length fs
        → length bs ≡ length fs
        → Apart fs
        → any (λ f. is_done Key Bins Exception f s) fs ≡ false
        → (resubmit_writes_individually Key Bins Exception C ks fs bs s).write_fates
          ≡ s.write_fates ++ outcomes fs bs
    unfolding resubmit_writes_individually
    resubmit-outcomes [] [] bs s h k apart undone = sym (append-nil s.write_fates)
    resubmit-outcomes [] (f ∷ fs) bs s h k apart undone = absurd (omega (arith, h))
    resubmit-outcomes (x ∷ ks) [] bs s h k apart undone = absurd (omega (arith, h))
    resubmit-outcomes (x ∷ ks) (f ∷ fs) [] s h k apart undone = absurd (omega (arith, k))
    resubmit-outcomes (x ∷ ks) (f ∷ fs) (b ∷ bs) s h k apart undone =
        let u =
          or_false (is_done Key Bins Exception f s) (any (λ g. is_done Key Bins Exception g s) fs)
            undone in
        let t = resubmit_one Key Bins Exception C x f b s in
        let one = resubmit_one-write_fate x f b s u.0 in
        resubmit-outcomes ks fs bs t (omega (arith, h)) (omega (arith, k)) apart.1 (
          ap (λ done. any (λ g. any (λ d. g == d) done) fs) one.1
          ∙ undone_after f fs s.done (converts b) u.1 apart.0)
        ∙ ap (λ l. l ++ outcomes fs bs) one.0
        ∙ append_assoc s.write_fates ((f, write_fate b) ∷ []) (outcomes fs bs)

    -- Where a submission converts every payload before it takes any, each write of a window whose
    -- futures are all different and none of them done comes to what its own payload would come to
    -- in a direct write: a payload that does not convert fails its own write, and no other.
    pub write_outcome-outcomes :
        (ks : List Key) (fs : List ℕ) (bs : List Bins) (s : Loop Key Bins Exception)
        → length ks ≡ length fs
        → length bs ≡ length fs
        → Apart fs
        → any (λ f. is_done Key Bins Exception f s) fs ≡ false
        → (write_outcome Key Bins Exception C ks fs bs (C.submit_write s ks fs bs) s).write_fates
          ≡ s.write_fates ++ outcomes fs bs
    unfolding write_outcome
    write_outcome-outcomes ks fs bs s h k apart undone = elim (Option-cases (first_refusal bs)) [
      | inl e ↦
          ap (λ o. (write_outcome Key Bins Exception C ks fs bs o s).write_fates)
            (law s ks fs bs ∙ e)
          ∙ ap (λ l. s.write_fates ++ l) (sym (outcomes_taken fs bs k e))
      | inr e ↦
          ap (λ o. (write_outcome Key Bins Exception C ks fs bs o s).write_fates)
            (law s ks fs bs ∙ e.1)
          ∙ resubmit-outcomes ks fs bs s h k apart undone
    ]
