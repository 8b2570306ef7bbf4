-- ===== src/Config/Poller/Reload.antt =====
-- The settings that a sequence of polls in aerospike_sdk/sdk_config_monitor.py puts in force.
use aerospike_client_python.Base.{
  ℕ, List, [], ◌∷◌, true, false, Option, none, some, ◌≡◌, refl, sym, ap, subst, ◌∙◌, Bool-cases,
  Option-cases, inl, inr,
}
use aerospike_client_python.Config.{Profiles, effective}
use aerospike_client_python.Config.Poller.{
  Loader, Settings, Poller, Poll, same_time, same_content, apply_loaded, parse_changed,
  read_changed, poll_once,
}
use aerospike_client_python.Config.Poller.Laws.{
  IsFresh, apply_loaded-calm, apply_loaded-raises, parse_changed-some, parse_changed-none, no_file,
  same_stamp, poll_once-idle, poll_once-new, read_changed-none, read_changed-same, read_changed-new,
}

module _ (L : Loader) where
  -- The file that a poll can read and parse.
  abbrev pub parsed : Option L.Raw → Option (Profiles L.Exporter L.Labels × L.Behaviors)
  parsed none = none
  parsed (some raw) = L.parse raw

  abbrev pub in_force : Poller L → Option (Profiles L.Exporter L.Labels × L.Behaviors) → Settings L
  in_force t none = t.current
  in_force t (some loaded) = effective L.Exporter L.Labels loaded.0 t.cluster_name t.programmatic

  read_changed-in_force :
      (p : Poll L) (t : Poller L)
      → p.raises ≡ false
      → IsFresh L t
      → IsFresh L (read_changed L p t).1
        × ((read_changed L p t).1.current ≡ in_force t (parsed p.raw))
  read_changed-in_force p t calm fresh = elim (Option-cases p.raw) [
    | inl h ↦
        subst (λ r. IsFresh L r.1 × (r.1.current ≡ in_force t (parsed p.raw)))
          (sym (read_changed-none L p t h)) (fresh, ap (λ o. in_force t (parsed o)) (sym h))
    | inr h ↦
        let raw = h.0 in
        elim (Bool-cases (same_content L raw t.last_raw)) [
          | inl s ↦
              subst (λ r. IsFresh L r.1 × (r.1.current ≡ in_force t (parsed p.raw)))
                (sym (read_changed-same L p t raw (h.1) s))
                (
                  fresh,
                  known raw s (L.parse raw) refl ∙ ap (λ o. in_force t (parsed o)) (sym (h.1)),
                )
          | inr s ↦
              subst (λ r. IsFresh L r.1 × (r.1.current ≡ in_force t (parsed p.raw)))
                (sym (read_changed-new L p t raw (h.1) s)) (changed raw (h.1))
        ]
  ]
    where
      last : (raw : L.Raw) → same_content L raw t.last_raw ≡ true → t.last_raw ≡ some raw
      last raw s = elim (Option-cases t.last_raw) [
        | inl n ↦ absurd (cc (ap (same_content L raw) n, s))
        | inr o ↦
            o.1
            ∙ ap some (
                sym ((L.same_raw-IsEquality raw (o.0)).0 (sym (ap (same_content L raw) (o.1)) ∙ s)))
      ]

      known :
          (raw : L.Raw)
          → same_content L raw t.last_raw ≡ true
          → (o : Option (Profiles L.Exporter L.Labels × L.Behaviors)) → L.parse raw ≡ o
          → t.current ≡ in_force t (L.parse raw)
      known raw s none q = ap (in_force t) (sym q)
      known raw s (some loaded) q = fresh raw loaded (last raw s) q ∙ ap (in_force t) (sym q)

      changed :
          (raw : L.Raw)
          → p.raw ≡ some raw
          → IsFresh L (parse_changed L p raw t).1
            × ((parse_changed L p raw t).1.current ≡ in_force t (parsed p.raw))
      changed raw h = elim (Option-cases (L.parse raw)) [
        | inl q ↦
            subst (λ r. IsFresh L r.1 × (r.1.current ≡ in_force t (parsed p.raw)))
              (sym (parse_changed-none L p raw t q))
              (fresh, ap (in_force t) (sym q) ∙ ap (λ o. in_force t (parsed o)) (sym h))
        | inr q ↦
            let r =
              apply_loaded-calm L p (q.0) (record t { last_raw = some raw }) calm raw refl (q.1) in
            subst (λ r. IsFresh L r.1 × (r.1.current ≡ in_force t (parsed p.raw)))
              (sym (parse_changed-some L p raw t (q.0) (q.1)))
              (r.0, r.1 ∙ ap (in_force t) (sym (q.1)) ∙ ap (λ o. in_force t (parsed o)) (sym h))
      ]

  -- A poller after polls in which applying behaviors does not raise, from settings that its first
  -- bytes resolve to.
  pub data Reach : Poller L → Type 0 where
    connected : (t : Poller L) → IsFresh L t → Reach t
    by_poll : {t : Poller L} (p : Poll L) → p.raises ≡ false → Reach t → Reach (poll_once L p t).1

  Reach-IsFresh : {t : Poller L} → Reach t → IsFresh L t
  Reach-IsFresh (connected t f) = f
  Reach-IsFresh (by_poll {t} p calm r) = polled p t calm (Reach-IsFresh r) p.mtime refl
    where
      polled :
          (p : Poll L) (t : Poller L)
          → p.raises ≡ false
          → IsFresh L t
          → (o : Option ℕ) → p.mtime ≡ o
          → IsFresh L (poll_once L p t).1
      polled p t calm f none h =
          subst (λ r. IsFresh L r.1) (sym (poll_once-idle L p t (no_file h))) f
      polled p t calm f (some m) h = elim (Bool-cases (same_time L m t.last_mtime)) [
        | inl s ↦ subst (λ r. IsFresh L r.1) (sym (poll_once-idle L p t (same_stamp m h s))) f
        | inr s ↦
            subst (λ r. IsFresh L r.1) (sym (poll_once-new L p t m h s))
              ((read_changed-in_force p (record t { last_mtime = some m }) calm f).0)
      ]

  -- For a poller that started with the settings its first bytes resolve to, which one that adopts a
  -- block of the cluster's own name need not: after polls in which applying behaviors does not raise,
  -- one more such poll that finds a new time stamp puts the settings in force that the file resolves
  -- to, also when its bytes are those read last; where the file cannot be read or parsed, the
  -- settings stay as they are.
  pub poll_once-in_force :
      {t : Poller L} (p : Poll L) (m : ℕ)
      → Reach t
      → p.raises ≡ false
      → p.mtime ≡ some m
      → same_time L m t.last_mtime ≡ false
      → (poll_once L p t).1.current ≡ in_force t (parsed p.raw)
  poll_once-in_force {t} p m r calm h s =
      ap (λ o. o.1.current) (poll_once-new L p t m h s)
      ∙ (read_changed-in_force p (record t { last_mtime = some m }) calm (Reach-IsFresh r)).1

  -- A poller that has read some bytes last, and whose settings are those of an earlier one.
  abbrev Rests : L.Raw → Poller L → Poller L → Type 0
  Rests raw before t =
      (t.last_raw ≡ some raw) × (t.current ≡ before.current) × (t.applied ≡ before.applied)

  reread :
      (q : Poll L) (before t : Poller L) (raw : L.Raw)
      → q.raw ≡ some raw
      → Rests raw before t
      → Rests raw before (poll_once L q t).1
  reread q before t raw h rests = go q.mtime refl
    where
      go : (o : Option ℕ) → q.mtime ≡ o → Rests raw before (poll_once L q t).1
      go none e = subst (λ r. Rests raw before r.1) (sym (poll_once-idle L q t (no_file e))) rests
      go (some m) e = elim (Bool-cases (same_time L m t.last_mtime)) [
        | inl s ↦
            subst (λ r. Rests raw before r.1) (sym (poll_once-idle L q t (same_stamp m e s))) rests
        | inr s ↦
            let same : same_content L raw t.last_raw ≡ true =
              ap (same_content L raw) (rests.0) ∙ (L.same_raw-IsEquality raw raw).1 refl in
            subst (λ r. Rests raw before r.1)
              (sym (
                poll_once-new L q t m e s
                ∙ read_changed-same L q (record t { last_mtime = some m }) raw h same))
              rests
      ]

  -- Polls one after the other, whether they raise or not.
  unfoldable pub poll_all : List (Poll L) → Poller L → Poller L
  poll_all [] t = t
  poll_all (q ∷ qs) t = poll_all qs (poll_once L q t).1

  abbrev pub Rereads : L.Raw → List (Poll L) → Type 0
  Rereads raw [] = Unit
  Rereads raw (q ∷ qs) = (q.raw ≡ some raw) × Rereads raw qs

  reread_all :
      (qs : List (Poll L)) (before t : Poller L) (raw : L.Raw)
      → Rereads raw qs
      → Rests raw before t
      → Rests raw before (poll_all qs t)
  unfolding poll_all
  reread_all [] before t raw h rests = rests
  reread_all (q ∷ qs) before t raw h rests =
      reread_all qs before (poll_once L q t).1 raw (h.1) (reread q before t raw (h.0) rests)

  -- When applying the behaviors of new bytes raises, the poll raises with the settings unchanged, and
  -- any sequence of polls after it that all read the same bytes leaves the settings and what was
  -- applied unchanged too, whatever the time stamps and whether behaviors can be applied by then.
  pub poll_once-raises :
      (p : Poll L) (qs : List (Poll L)) (t : Poller L) (m : ℕ) (raw : L.Raw)
      → (loaded : Profiles L.Exporter L.Labels × L.Behaviors) → p.mtime ≡ some m
      → same_time L m t.last_mtime ≡ false
      → p.raw ≡ some raw
      → same_content L raw t.last_raw ≡ false
      → L.parse raw ≡ some loaded
      → L.has_behaviors loaded.1 ≡ true
      → p.raises ≡ true
      → Rereads raw qs
      → ((poll_once L p t).0 ≡ true)
        × ((poll_once L p t).1.current ≡ t.current)
        × ((poll_all qs (poll_once L p t).1).current ≡ t.current)
        × ((poll_all qs (poll_once L p t).1).applied ≡ t.applied)
  poll_once-raises p qs t m raw loaded h s r c e b x k =
      let after : Poller L = record t { last_mtime = some m; last_raw = some raw } in
      let raised : apply_loaded L p loaded after ≡ (true, after) =
        apply_loaded-raises L p loaded after b x in
      let first : poll_once L p t ≡ (true, after) =
        poll_once-new L p t m h s
        ∙ read_changed-new L p (record t { last_mtime = some m }) raw r c
        ∙ parse_changed-some L p raw (record t { last_mtime = some m }) loaded e
        ∙ raised in
      subst
        (λ o.
          (o.0 ≡ true)
          × (o.1.current ≡ t.current)
          × ((poll_all qs o.1).current ≡ t.current)
          × ((poll_all qs o.1).applied ≡ t.applied))
        (sym first)
        (let again = reread_all qs t after raw k (refl, refl, refl) in
          (refl, refl, again.1, again.2))
