-- ===== src/Session/Coalesce/Laws.antt =====
-- What becomes of the calls that aerospike_sdk/aio/session.py buffers.
use aerospike_client_python.Base.{
  ℕ, zero, suc, false, ◌&&◌, not, Bool-cases, List, [], ◌∷◌, ◌++◌, length, ◌≡◌, refl, sym, ap, ◌∙◌,
  inl, inr, append-nil, if◌then◌else◌, arith,
}
use aerospike_client_python.Session.Coalesce.{
  direct_get, direct_put, Loop, initial, Client, get, put, submit_reads, submit_writes,
  flush_coalesced, Event, run_get, run_put, run_flush, complete, flush_armed, step, run,
}
use aerospike_client_python.Session.Coalesce.Frames.{
  futures, ReadsGone, WritesGone, submit_reads-ReadsGone_of, submit_writes-WritesGone_of,
}
use aerospike_client_python.Session.Coalesce.Sound.{
  IsSound, initial-IsSound, send-IsSound, coalesced_get-IsSound, coalesced_put-IsSound,
}

module _ (Key Bins Exception : Type 0) (C : Client Key Bins Exception) where
  -- `t` has nothing buffered, and something has become of every future that was awaited in `s`.
  pub record Delivered (s t : Loop Key Bins Exception) : Type 0 where
    pub same_armed : t.armed ≡ s.armed
    pub not_scheduled : t.scheduled ≡ false
    pub no_keys : t.keys ≡ []
    pub no_futs : t.futs ≡ []
    pub no_write_keys : t.write_keys ≡ []
    pub no_write_futs : t.write_futs ≡ []
    pub no_write_bins : t.write_bins ≡ []
    pub same_awaited : t.awaited ≡ s.awaited
    pub same_awaited_writes : t.awaited_writes ≡ s.awaited_writes
    pub delivered : futures t.fates ≡ s.awaited
    pub delivered_writes : futures t.write_fates ≡ s.awaited_writes

  Delivered-gone :
      (s r t : Loop Key Bins Exception)
      → ReadsGone Key Bins Exception C (record s { scheduled = false }) r
      → WritesGone Key Bins Exception C r t
      → futures s.fates ++ s.futs ≡ s.awaited
      → futures s.write_fates ++ s.write_futs ≡ s.awaited_writes
      → Delivered s t
  Delivered-gone s r t p q reads writes = record {
    same_armed = ap (λ x. x.armed) q.0 ∙ ap (λ x. x.armed) p.0;
    not_scheduled = ap (λ x. x.scheduled) q.0 ∙ ap (λ x. x.scheduled) p.0;
    no_keys = ap (λ x. x.keys) q.0 ∙ ap (λ x. x.keys) p.0;
    no_futs = ap (λ x. x.futs) q.0 ∙ ap (λ x. x.futs) p.0;
    no_write_keys = ap (λ x. x.write_keys) q.0;
    no_write_futs = ap (λ x. x.write_futs) q.0;
    no_write_bins = ap (λ x. x.write_bins) q.0;
    same_awaited = ap (λ x. x.awaited) q.0 ∙ ap (λ x. x.awaited) p.0;
    same_awaited_writes = ap (λ x. x.awaited_writes) q.0 ∙ ap (λ x. x.awaited_writes) p.0;
    delivered = ap (λ x. futures x.fates) q.0 ∙ p.1 ∙ reads;
    delivered_writes = q.1 ∙ ap (λ x. futures x.write_fates ++ x.write_futs) p.0 ∙ writes;
  }

  flush_coalesced-Delivered :
      (s : Loop Key Bins Exception) (n : ℕ)
      → IsSound Key Bins Exception C s
      → let u = record s { armed = n } in Delivered u (flush_coalesced Key Bins Exception C u)
  unfolding flush_coalesced
  flush_coalesced-Delivered s n h =
      let u : Loop Key Bins Exception = record s { armed = n; scheduled = false } in
      let r = submit_reads Key Bins Exception C s.keys s.futs u in
      let p =
        submit_reads-ReadsGone_of Key Bins Exception C s.keys s.futs u refl refl h.length_keys in
      let t = submit_writes Key Bins Exception C r.write_keys r.write_futs r.write_bins r in
      let q =
        submit_writes-WritesGone_of Key Bins Exception C r.write_keys r.write_futs r.write_bins r
          refl refl refl
          (ap (λ x. length x.write_keys) p.0
            ∙ h.length_write_keys
            ∙ sym (ap (λ x. length x.write_futs) p.0))
          (ap (λ x. length x.write_bins) p.0
            ∙ h.length_write_bins
            ∙ sym (ap (λ x. length x.write_futs) p.0)) in
      Delivered-gone (record s { armed = n }) r t p q h.reads h.writes

  Delivered-IsSound :
      (s t : Loop Key Bins Exception) → s.armed ≡ 0 → Delivered s t → IsSound Key Bins Exception C t
  Delivered-IsSound s t e d = record {
    armed_scheduled = rw d.not_scheduled (d.same_armed ∙ e);
    length_keys = ap length d.no_keys ∙ sym (ap length d.no_futs);
    length_write_keys = ap length d.no_write_keys ∙ sym (ap length d.no_write_futs);
    length_write_bins = ap length d.no_write_bins ∙ sym (ap length d.no_write_futs);
    nothing_waits = λ k. (d.no_futs, d.no_write_futs);
    reads =
        ap (λ l. futures t.fates ++ l) d.no_futs
        ∙ append-nil (futures t.fates)
        ∙ d.delivered
        ∙ sym d.same_awaited;
    writes =
        ap (λ l. futures t.write_fates ++ l) d.no_write_futs
        ∙ append-nil (futures t.write_fates)
        ∙ d.delivered_writes
        ∙ sym d.same_awaited_writes;
  }

  -- Only one flush is armed.
  armed_once :
      (s : Loop Key Bins Exception) (n : ℕ)
      → IsSound Key Bins Exception C s
      → s.armed ≡ suc n
      → n ≡ 0
  armed_once s n h e = elim (Bool-cases s.scheduled) [
    | inl k ↦ omega (arith, e, h.armed_scheduled ∙ ap (λ b. if b then 1 else 0) k)
    | inr k ↦ omega (arith, e, h.armed_scheduled ∙ ap (λ b. if b then 1 else 0) k)
  ]

  flush_armed-IsSound :
      (n : ℕ) (s : Loop Key Bins Exception)
      → s.armed ≡ n
      → IsSound Key Bins Exception C s
      → IsSound Key Bins Exception C (flush_armed Key Bins Exception C n s)
  unfolding flush_armed
  flush_armed-IsSound zero s e h = h
  flush_armed-IsSound (suc n) s e h =
      Delivered-IsSound (record s { armed = n })
        (flush_coalesced Key Bins Exception C (record s { armed = n })) (armed_once s n h e)
        (flush_coalesced-Delivered s n h)

  step-IsSound :
      (e : Event Key Bins Exception C) (s : Loop Key Bins Exception)
      → IsSound Key Bins Exception C s
      → IsSound Key Bins Exception C (step Key Bins Exception C e s)
  unfolding step get put
  step-IsSound (run_get coalesce in_txn projected key) s h =
      elim (Bool-cases (not in_txn && coalesce && not projected)) [
        | inl e ↦ rw e (coalesced_get-IsSound Key Bins Exception C key s h)
        | inr e ↦ rw e (send-IsSound Key Bins Exception C s h (direct_get key))
      ]
  step-IsSound (run_put coalesce_writes in_txn key bins) s h =
      elim (Bool-cases (not in_txn && coalesce_writes)) [
        | inl e ↦ rw e (coalesced_put-IsSound Key Bins Exception C key bins s h)
        | inr e ↦ rw e (send-IsSound Key Bins Exception C s h (direct_put key bins))
      ]
  step-IsSound run_flush s h = flush_armed-IsSound s.armed s refl h
  step-IsSound (complete f) s h = record {
    armed_scheduled = h.armed_scheduled;
    length_keys = h.length_keys;
    length_write_keys = h.length_write_keys;
    length_write_bins = h.length_write_bins;
    nothing_waits = h.nothing_waits;
    reads = h.reads;
    writes = h.writes;
  }

  run-IsSound_from :
      (es : List (Event Key Bins Exception C)) (s : Loop Key Bins Exception)
      → IsSound Key Bins Exception C s
      → IsSound Key Bins Exception C (run Key Bins Exception C es s)
  unfolding run
  run-IsSound_from [] s h = h
  run-IsSound_from (e ∷ es) s h = run-IsSound_from es _ (step-IsSound e s h)

  -- Whatever the loop runs, and whatever the client answers, a flush is armed exactly when the
  -- session says so, and then only one; the buffers are of one length, and empty unless a flush is
  -- armed; and the awaited futures are those that something has become of and then the buffered
  -- ones, in the order of the calls.
  pub run-IsSound :
      (es : List (Event Key Bins Exception C))
      → IsSound Key Bins Exception C (run Key Bins Exception C es (initial Key Bins Exception))
  run-IsSound es =
      run-IsSound_from es (initial Key Bins Exception) (initial-IsSound Key Bins Exception C)

  flush_armed_delivers :
      (n : ℕ) (s : Loop Key Bins Exception)
      → s.armed ≡ n
      → IsSound Key Bins Exception C s
      → let t = flush_armed Key Bins Exception C n s in
        (futures t.fates ≡ s.awaited) × (futures t.write_fates ≡ s.awaited_writes)
  unfolding flush_armed
  flush_armed_delivers zero s e h =
      let idle : s.scheduled ≡ false = elim (Bool-cases s.scheduled) [
        | inl k ↦ absurd (omega (arith, e, h.armed_scheduled ∙ ap (λ b. if b then 1 else 0) k))
        | inr k ↦ k
      ] in
      let none_waits = h.nothing_waits idle in
      (
        sym (append-nil (futures s.fates))
            ∙ ap (λ l. futures s.fates ++ l) (sym none_waits.0)
            ∙ h.reads,
        sym (append-nil (futures s.write_fates))
            ∙ ap (λ l. futures s.write_fates ++ l) (sym none_waits.1)
            ∙ h.writes,
      )
  flush_armed_delivers (suc n) s e h =
      let d = flush_coalesced-Delivered s n h in (d.delivered, d.delivered_writes)

  -- Whatever the loop has run and the client answers, the next flush leaves no caller behind:
  -- each future that was awaited, of a read or of a write, is handed over, given its exception or
  -- found done, once and in the order of the calls.
  pub flush_delivers :
      (es : List (Event Key Bins Exception C))
      → let s = run Key Bins Exception C es (initial Key Bins Exception) in
        let t = step Key Bins Exception C run_flush s in
        (futures t.fates ≡ s.awaited) × (futures t.write_fates ≡ s.awaited_writes)
  unfolding step
  flush_delivers es =
      let s = run Key Bins Exception C es (initial Key Bins Exception) in
      flush_armed_delivers s.armed s refl (run-IsSound es)
