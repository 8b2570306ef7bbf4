-- ===== src/Session/Coalesce/Frames.antt =====
-- What the flush of aerospike_sdk/aio/session.py changes.
use aerospike_client_python.Base.{
  ℕ, Bool-cases, Option, none, some, Option-cases, List, [], ◌∷◌, ◌++◌, map, length, ◌≡◌, refl, sym,
  ap, ◌∙◌, inl, inr, append-nil, append_assoc, if◌then◌else◌, arith,
}
use aerospike_client_python.Session.Coalesce.{
  Fate, taken, was_done, failed, Loop, Client, is_done, fail, fail_reads, read_outcome,
  submit_reads, resubmit_one, resubmit_writes_individually, write_outcome, submit_writes,
}

-- The futures of a list of fates.
abbrev pub futures : {E : Type 0} → List (ℕ × Fate E) → List ℕ
futures [] = []
futures ((f, fate) ∷ fates) = f ∷ futures fates

futures-append :
    {E : Type 0} (xs ys : List (ℕ × Fate E)) → futures (xs ++ ys) ≡ futures xs ++ futures ys
futures-append [] ys = refl
futures-append ((f, fate) ∷ xs) ys = ap (◌∷◌ f) (futures-append xs ys)

futures-taken : (E : Type 0) (fs : List ℕ) → futures {E = E} (map (λ f. (f, taken)) fs) ≡ fs
futures-taken E [] = refl
futures-taken E (f ∷ fs) = ap (◌∷◌ f) (futures-taken E fs)

length_nil : {A : Type 0} (xs : List A) → length xs ≡ 0 → xs ≡ []
length_nil [] h = refl
length_nil (x ∷ xs) h = absurd (omega (arith, h))

module _ (Key Bins Exception : Type 0) where
  abbrev pub S : Type 0
  S = Loop Key Bins Exception

  -- `t` is `s` but for what became of reads, or of writes, and the futures that are done.
  abbrev ReadFrame : S → S → Type 0
  ReadFrame s t = t ≡ record s { fates = t.fates; done = t.done }

  abbrev WriteFrame : S → S → Type 0
  WriteFrame s t = t ≡ record s { write_fates = t.write_fates; done = t.done }

  ReadFrame-trans : (s t u : S) → ReadFrame s t → ReadFrame t u → ReadFrame s u
  ReadFrame-trans s t u p q = q ∙ ap {A = S} (λ x. record x { fates = u.fates; done = u.done }) p

  WriteFrame-trans : (s t u : S) → WriteFrame s t → WriteFrame t u → WriteFrame s u
  WriteFrame-trans s t u p q =
      q ∙ ap {A = S} (λ x. record x { write_fates = u.write_fates; done = u.done }) p

  -- One turn of the loop that fails the reads of a window.
  abbrev fail_read : Exception → ℕ → S → S
  fail_read exc f s =
      if is_done Key Bins Exception f s
      then record s { fates = s.fates ++ (f, was_done) ∷ [] }
      else record (fail Key Bins Exception exc f s) { fates = s.fates ++ (f, failed exc) ∷ [] }

  fail_read-ReadFrame :
      (exc : Exception) (f : ℕ) (s : S)
      → ReadFrame s (fail_read exc f s)
        × (futures (fail_read exc f s).fates ≡ futures s.fates ++ f ∷ [])
  fail_read-ReadFrame exc f s = elim (Bool-cases (is_done Key Bins Exception f s)) [
    | inl h ↦ rw h (refl, futures-append s.fates ((f, was_done) ∷ []))
    | inr h ↦ rw h (refl, futures-append s.fates ((f, failed exc) ∷ []))
  ]

  fail_reads-ReadFrame :
      (exc : Exception) (fs : List ℕ) (s : S)
      → ReadFrame s (fail_reads Key Bins Exception exc fs s)
        × (futures (fail_reads Key Bins Exception exc fs s).fates ≡ futures s.fates ++ fs)
  fail_reads-ReadFrame exc [] s = (refl, sym (append-nil (futures s.fates)))
  fail_reads-ReadFrame exc (f ∷ fs) s =
      let t = fail_read exc f s in
      let one = fail_read-ReadFrame exc f s in
      let rest = fail_reads-ReadFrame exc fs t in
      (
        ReadFrame-trans s t (fail_reads Key Bins Exception exc fs t) one.0 rest.0,
        rest.1 ∙ ap (λ l. l ++ fs) one.1 ∙ append_assoc (futures s.fates) (f ∷ []) fs,
      )

  module _ (C : Client Key Bins Exception) where
    resubmit_one-WriteFrame :
        (k : Key) (f : ℕ) (b : Bins) (s : S)
        → let t = resubmit_one Key Bins Exception C k f b s in
          WriteFrame s t × (futures t.write_fates ≡ futures s.write_fates ++ f ∷ [])
    resubmit_one-WriteFrame k f b s = elim (Bool-cases (is_done Key Bins Exception f s)) [
      | inl h ↦ rw h (refl, futures-append s.write_fates ((f, was_done) ∷ []))
      | inr h ↦ elim (Option-cases (C.submit_write s (k ∷ []) (f ∷ []) (b ∷ []))) [
        | inl e ↦ rw (h, e) (refl, futures-append s.write_fates ((f, taken) ∷ []))
        | inr e ↦ rw (h, e.1) (refl, futures-append s.write_fates ((f, failed e.0) ∷ []))
      ]
    ]

    resubmit-WriteFrame :
        (ks : List Key) (fs : List ℕ) (bs : List Bins) (s : S)
        → length ks ≡ length fs
        → length bs ≡ length fs
        → let t = resubmit_writes_individually Key Bins Exception C ks fs bs s in
          WriteFrame s t × (futures t.write_fates ≡ futures s.write_fates ++ fs)
    unfolding resubmit_writes_individually
    resubmit-WriteFrame [] [] bs s h k = (refl, sym (append-nil (futures s.write_fates)))
    resubmit-WriteFrame [] (f ∷ fs) bs s h k = absurd (omega (arith, h))
    resubmit-WriteFrame (x ∷ ks) [] bs s h k = absurd (omega (arith, h))
    resubmit-WriteFrame (x ∷ ks) (f ∷ fs) [] s h k = absurd (omega (arith, k))
    resubmit-WriteFrame (x ∷ ks) (f ∷ fs) (b ∷ bs) s h k =
        let t = resubmit_one Key Bins Exception C x f b s in
        let u = resubmit_writes_individually Key Bins Exception C ks fs bs t in
        let one = resubmit_one-WriteFrame x f b s in
        let rest = resubmit-WriteFrame ks fs bs t (omega (arith, h)) (omega (arith, k)) in
        (
          WriteFrame-trans s t u one.0 rest.0,
          rest.1 ∙ ap (λ l. l ++ fs) one.1 ∙ append_assoc (futures s.write_fates) (f ∷ []) fs,
        )

    read_outcome-ReadFrame :
        (fs : List ℕ) (o : Option Exception) (s : S)
        → let t = read_outcome Key Bins Exception C fs o s in
          ReadFrame s t × (futures t.fates ≡ futures s.fates ++ fs)
    read_outcome-ReadFrame fs none s = (
      refl,
      futures-append s.fates (map (λ f. (f, taken)) fs)
          ∙ ap (λ l. futures s.fates ++ l) (futures-taken Exception fs),
    )
    read_outcome-ReadFrame fs (some exc) s = fail_reads-ReadFrame exc fs s

    write_outcome-WriteFrame :
        (ks : List Key) (fs : List ℕ) (bs : List Bins) (o : Option Exception) (s : S)
        → length ks ≡ length fs
        → length bs ≡ length fs
        → let t = write_outcome Key Bins Exception C ks fs bs o s in
          WriteFrame s t × (futures t.write_fates ≡ futures s.write_fates ++ fs)
    unfolding write_outcome
    write_outcome-WriteFrame ks fs bs none s h k = (
      refl,
      futures-append s.write_fates (map (λ f. (f, taken)) fs)
          ∙ ap (λ l. futures s.write_fates ++ l) (futures-taken Exception fs),
    )
    write_outcome-WriteFrame ks fs bs (some exc) s h k = resubmit-WriteFrame ks fs bs s h k

    -- `t` is `s` with its read buffer handed over.
    abbrev pub ReadsGone : S → S → Type 0
    ReadsGone s t =
        (t ≡ record s { keys = []; futs = []; fates = t.fates; done = t.done })
        × (futures t.fates ≡ futures s.fates ++ s.futs)

    abbrev pub WritesGone : S → S → Type 0
    WritesGone s t =
        (t ≡ record s {
          write_keys = [];
          write_futs = [];
          write_bins = [];
          write_fates = t.write_fates;
          done = t.done;
        })
        × (futures t.write_fates ≡ futures s.write_fates ++ s.write_futs)

    pub submit_reads-ReadsGone_of :
        (ks : List Key) (fs : List ℕ) (s : S)
        → s.keys ≡ ks
        → s.futs ≡ fs
        → length ks ≡ length fs
        → ReadsGone s (submit_reads Key Bins Exception C ks fs s)
    submit_reads-ReadsGone_of [] [] s p q h = (
      λ i. record s { keys = p i; futs = q i },
      sym (append-nil (futures s.fates)) ∙ ap (λ l. futures s.fates ++ l) (sym q),
    )
    submit_reads-ReadsGone_of [] (f ∷ fs) s p q h = absurd (omega (arith, h))
    submit_reads-ReadsGone_of (k ∷ ks) fs s p q h =
        let t : S = record s { keys = []; futs = [] } in
        let r = read_outcome-ReadFrame fs (C.submit_read t (k ∷ ks) fs) t in
        (r.0, r.1 ∙ ap (λ l. futures s.fates ++ l) (sym q))

    pub submit_writes-WritesGone_of :
        (ks : List Key) (fs : List ℕ) (bs : List Bins) (s : S)
        → s.write_keys ≡ ks
        → s.write_futs ≡ fs
        → s.write_bins ≡ bs
        → length ks ≡ length fs
        → length bs ≡ length fs
        → WritesGone s (submit_writes Key Bins Exception C ks fs bs s)
    unfolding submit_writes
    submit_writes-WritesGone_of [] [] [] s p q r h k = (
      λ i. record s { write_keys = p i; write_futs = q i; write_bins = r i },
      sym (append-nil (futures s.write_fates)) ∙ ap (λ l. futures s.write_fates ++ l) (sym q),
    )
    submit_writes-WritesGone_of [] [] (b ∷ bs) s p q r h k = absurd (omega (arith, k))
    submit_writes-WritesGone_of [] (f ∷ fs) bs s p q r h k = absurd (omega (arith, h))
    submit_writes-WritesGone_of (x ∷ ks) fs bs s p q r h k =
        let t : S = record s { write_keys = []; write_futs = []; write_bins = [] } in
        let o = write_outcome-WriteFrame (x ∷ ks) fs bs (C.submit_write t (x ∷ ks) fs bs) t h k in
        (o.0, o.1 ∙ ap (λ l. futures s.write_fates ++ l) (sym q))
