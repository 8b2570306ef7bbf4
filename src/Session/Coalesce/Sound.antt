-- ===== src/Session/Coalesce/Sound.antt =====
-- The invariant of the buffers in aerospike_sdk/aio/session.py, and that single calls keep it.
use aerospike_client_python.Base.{
  suc, ◌+◌, true, false, Bool-cases, [], ◌∷◌, ◌++◌, length, length-append, ◌≡◌, refl, sym, ap,
  subst, ◌∙◌, inl, inr, append_assoc, if◌then◌else◌, arith,
}
use aerospike_client_python.Session.Coalesce.{
  Direct, direct_get, direct_put, Loop, initial, Client, arm, send, coalesced_get, coalesced_put,
}
use aerospike_client_python.Session.Coalesce.Frames.{futures}

module _ (Key Bins Exception : Type 0) (C : Client Key Bins Exception) where
  -- Of a state that calls, flushes and completions lead to: a flush is armed exactly when the
  -- session says so, and then only one; the buffers hold a future for each key and payload, and
  -- nothing unless a flush is armed; and the futures that callers await are those that something
  -- has become of, followed by those that are buffered, in order.
  pub record IsSound (s : Loop Key Bins Exception) : Type 0 where
    pub armed_scheduled : s.armed ≡ (if s.scheduled then 1 else 0)
    pub length_keys : length s.keys ≡ length s.futs
    pub length_write_keys : length s.write_keys ≡ length s.write_futs
    pub length_write_bins : length s.write_bins ≡ length s.write_futs
    pub nothing_waits : s.scheduled ≡ false → (s.futs ≡ []) × (s.write_futs ≡ [])
    pub reads : futures s.fates ++ s.futs ≡ s.awaited
    pub writes : futures s.write_fates ++ s.write_futs ≡ s.awaited_writes

  pub initial-IsSound : IsSound (initial Key Bins Exception)
  initial-IsSound = record {
    armed_scheduled = refl;
    length_keys = refl;
    length_write_keys = refl;
    length_write_bins = refl;
    nothing_waits = λ h. (refl, refl);
    reads = refl;
    writes = refl;
  }

  module _ (s : Loop Key Bins Exception) (h : IsSound s) where
    pub send-IsSound : (d : Direct Key Bins Exception) → IsSound (send Key Bins Exception d s)
    send-IsSound d = record {
      armed_scheduled = h.armed_scheduled;
      length_keys = h.length_keys;
      length_write_keys = h.length_write_keys;
      length_write_bins = h.length_write_bins;
      nothing_waits = h.nothing_waits;
      reads = h.reads;
      writes = h.writes;
    }

    arm-IsSound : s.scheduled ≡ false → IsSound (arm Key Bins Exception s)
    arm-IsSound e = record {
      armed_scheduled = omega (arith, rw e at h.armed_scheduled);
      length_keys = h.length_keys;
      length_write_keys = h.length_write_keys;
      length_write_bins = h.length_write_bins;
      nothing_waits = λ k. absurd (cc k);
      reads = h.reads;
      writes = h.writes;
    }

    buffered_read-IsSound :
        (key : Key)
        → s.scheduled ≡ true
        → IsSound (record s {
          keys = s.keys ++ key ∷ [];
          futs = s.futs ++ s.next ∷ [];
          awaited = s.awaited ++ s.next ∷ [];
          next = suc s.next;
        })
    buffered_read-IsSound key e = record {
      armed_scheduled = h.armed_scheduled;
      length_keys =
          length-append s.keys (key ∷ [])
          ∙ ap (λ n. n + 1) h.length_keys
          ∙ sym (length-append s.futs (s.next ∷ []));
      length_write_keys = h.length_write_keys;
      length_write_bins = h.length_write_bins;
      nothing_waits = λ k. absurd (cc (e, k));
      reads =
          sym (append_assoc (futures s.fates) s.futs (s.next ∷ []))
          ∙ ap (λ l. l ++ s.next ∷ []) h.reads;
      writes = h.writes;
    }

    buffered_write-IsSound :
        (key : Key) (bins : Bins)
        → s.scheduled ≡ true
        → IsSound (record s {
          write_keys = s.write_keys ++ key ∷ [];
          write_bins = s.write_bins ++ bins ∷ [];
          write_futs = s.write_futs ++ s.next ∷ [];
          awaited_writes = s.awaited_writes ++ s.next ∷ [];
          next = suc s.next;
        })
    buffered_write-IsSound key bins e = record {
      armed_scheduled = h.armed_scheduled;
      length_keys = h.length_keys;
      length_write_keys =
          length-append s.write_keys (key ∷ [])
          ∙ ap (λ n. n + 1) h.length_write_keys
          ∙ sym (length-append s.write_futs (s.next ∷ []));
      length_write_bins =
          length-append s.write_bins (bins ∷ [])
          ∙ ap (λ n. n + 1) h.length_write_bins
          ∙ sym (length-append s.write_futs (s.next ∷ []));
      nothing_waits = λ k. absurd (cc (e, k));
      reads = h.reads;
      writes =
          sym (append_assoc (futures s.write_fates) s.write_futs (s.next ∷ []))
          ∙ ap (λ l. l ++ s.next ∷ []) h.writes;
    }

  coalesced_get_buffers :
      (key : Key) (s : Loop Key Bins Exception)
      → s.scheduled ≡ true
      → coalesced_get Key Bins Exception key s ≡ record s {
        keys = s.keys ++ key ∷ [];
        futs = s.futs ++ s.next ∷ [];
        awaited = s.awaited ++ s.next ∷ [];
        next = suc s.next;
      }
  unfolding coalesced_get
  coalesced_get_buffers key s e =
      ap
        (λ b.
          if b
          then record s {
            keys = s.keys ++ key ∷ [];
            futs = s.futs ++ s.next ∷ [];
            awaited = s.awaited ++ s.next ∷ [];
            next = suc s.next;
          }
          else send Key Bins Exception (direct_get key) (arm Key Bins Exception s))
        e

  coalesced_put_buffers :
      (key : Key) (bins : Bins) (s : Loop Key Bins Exception)
      → s.scheduled ≡ true
      → coalesced_put Key Bins Exception key bins s ≡ record s {
        write_keys = s.write_keys ++ key ∷ [];
        write_bins = s.write_bins ++ bins ∷ [];
        write_futs = s.write_futs ++ s.next ∷ [];
        awaited_writes = s.awaited_writes ++ s.next ∷ [];
        next = suc s.next;
      }
  unfolding coalesced_put
  coalesced_put_buffers key bins s e =
      ap
        (λ b.
          if b
          then record s {
            write_keys = s.write_keys ++ key ∷ [];
            write_bins = s.write_bins ++ bins ∷ [];
            write_futs = s.write_futs ++ s.next ∷ [];
            awaited_writes = s.awaited_writes ++ s.next ∷ [];
            next = suc s.next;
          }
          else send Key Bins Exception (direct_put key bins) (arm Key Bins Exception s))
        e

  pub coalesced_get-IsSound :
      (key : Key) (s : Loop Key Bins Exception)
      → IsSound s
      → IsSound (coalesced_get Key Bins Exception key s)
  unfolding coalesced_get
  coalesced_get-IsSound key s h = elim (Bool-cases s.scheduled) [
    | inl e ↦ subst IsSound (sym (coalesced_get_buffers key s e)) (buffered_read-IsSound s h key e)
    | inr e ↦ rw e (send-IsSound (arm Key Bins Exception s) (arm-IsSound s h e) (direct_get key))
  ]

  pub coalesced_put-IsSound :
      (key : Key) (bins : Bins) (s : Loop Key Bins Exception)
      → IsSound s
      → IsSound (coalesced_put Key Bins Exception key bins s)
  unfolding coalesced_put
  coalesced_put-IsSound key bins s h = elim (Bool-cases s.scheduled) [
    | inl e ↦
        subst IsSound (sym (coalesced_put_buffers key bins s e))
          (buffered_write-IsSound s h key bins e)
    | inr e ↦
        rw e (send-IsSound (arm Key Bins Exception s) (arm-IsSound s h e) (direct_put key bins))
  ]
