-- ===== src/Config/Poller/Laws.antt =====
-- What the reload of aerospike_sdk/sdk_config_monitor.py leaves in force.
use aerospike_client_python.Base.{
  ℕ, true, false, none, some, ◌∷◌, ◌≡◌, refl, sym, ap, subst, ◌∙◌, Bool-cases, inl, inr,
}
use aerospike_client_python.Config.{Profiles, effective}
use aerospike_client_python.Config.Equality.{same_settings_sound}
use aerospike_client_python.Config.Poller.{
  Loader, Settings, same, Poller, Poll, same_time, same_content, resolved, swap, apply_loaded,
  parse_changed, read_changed, poll_once,
}

module _ (L : Loader) where
  -- The settings in force are those that the bytes read last resolve to.
  abbrev pub IsFresh : Poller L → Type 0
  IsFresh t =
      (raw : L.Raw) (loaded : Profiles L.Exporter L.Labels × L.Behaviors)
      → t.last_raw ≡ some raw
      → L.parse raw ≡ some loaded
      → t.current ≡ effective L.Exporter L.Labels loaded.0 t.cluster_name t.programmatic

  same_sound : (a b : Settings L) → same L a b ≡ true → a ≡ b
  same_sound a b h =
      same_settings_sound L.same_exporter L.same_labels L.same_exporter-IsEquality
        L.same_labels-IsEquality a b h

  current-swap : (s : Settings L) (t : Poller L) → (swap L s t).1.current ≡ s
  current-swap s t = elim (Bool-cases (same L s t.current)) [
    | inl p ↦ rw (p, swap) (sym (same_sound s t.current p))
    | inr p ↦ rw (p, swap) refl
  ]

  -- A swap changes the settings in force and the client's, and nothing else.
  last_raw-swap : (s : Settings L) (t : Poller L) → (swap L s t).1.last_raw ≡ t.last_raw
  last_raw-swap s t = elim (Bool-cases (same L s t.current)) [
    | inl p ↦ rw (p, swap) refl
    | inr p ↦ rw (p, swap) refl
  ]

  IsFresh-at :
      (t : Poller L) (raw : L.Raw) (loaded : Profiles L.Exporter L.Labels × L.Behaviors)
      → t.last_raw ≡ some raw
      → L.parse raw ≡ some loaded
      → t.current ≡ effective L.Exporter L.Labels loaded.0 t.cluster_name t.programmatic
      → IsFresh t
  IsFresh-at t raw loaded h q c raw₂ loaded₂ h₂ q₂ =
      let same_raw : raw ≡ raw₂ = cc (h, h₂) in
      let same : loaded ≡ loaded₂ = cc (same_raw, q, q₂) in
      c ∙ ap (λ l. effective L.Exporter L.Labels l.0 t.cluster_name t.programmatic) same

  swap-IsFresh :
      (s : Settings L) (t : Poller L) (raw : L.Raw)
      → (loaded : Profiles L.Exporter L.Labels × L.Behaviors) → t.last_raw ≡ some raw
      → L.parse raw ≡ some loaded
      → s ≡ effective L.Exporter L.Labels loaded.0 t.cluster_name t.programmatic
      → IsFresh (swap L s t).1
  swap-IsFresh s t raw loaded h q c = elim (Bool-cases (same L s t.current)) [
    | inl p ↦
        subst IsFresh (sym (kept p))
          (IsFresh-at t raw loaded h q (sym (same_sound s t.current p) ∙ c))
    | inr p ↦
        subst IsFresh (sym (changed p))
          (IsFresh-at (record t { current = s; applied = s ∷ t.applied }) raw loaded h q c)
  ]
    where
      kept : same L s t.current ≡ true → (swap L s t).1 ≡ t
      kept p = rw (p, swap) refl

      changed :
          same L s t.current ≡ false
          → (swap L s t).1 ≡ record t { current = s; applied = s ∷ t.applied }
      changed p = rw (p, swap) refl

  pub apply_loaded-calm :
      (p : Poll L) (loaded : Profiles L.Exporter L.Labels × L.Behaviors) (t : Poller L)
      → p.raises ≡ false
      → (raw : L.Raw) → t.last_raw ≡ some raw
      → L.parse raw ≡ some loaded
      → IsFresh (apply_loaded L p loaded t).1
        × ((apply_loaded L p loaded t).1.current
            ≡ effective L.Exporter L.Labels loaded.0 t.cluster_name t.programmatic)
  unfolding apply_loaded resolved
  apply_loaded-calm p loaded t calm raw h q = elim (Bool-cases (L.has_behaviors loaded.1)) [
    | inl b ↦
        let u : Poller L = record t { behaviors_applied = loaded.1 ∷ t.behaviors_applied } in
        subst (λ r. IsFresh r.1 × (r.1.current ≡ now)) (sym (both b))
          (swap-IsFresh now u raw loaded h q refl, current-swap now u)
    | inr b ↦
        subst (λ r. IsFresh r.1 × (r.1.current ≡ now)) (sym (neither b))
          (swap-IsFresh now t raw loaded h q refl, current-swap now t)
  ]
    where
      now : Settings L
      now = effective L.Exporter L.Labels loaded.0 t.cluster_name t.programmatic

      both :
          L.has_behaviors loaded.1 ≡ true
          → apply_loaded L p loaded t
            ≡ swap L now (record t { behaviors_applied = loaded.1 ∷ t.behaviors_applied })
      both b = rw (b, calm, apply_loaded) refl

      neither : L.has_behaviors loaded.1 ≡ false → apply_loaded L p loaded t ≡ swap L now t
      neither b = rw (b, apply_loaded) refl

  pub apply_loaded-raises :
      (p : Poll L) (loaded : Profiles L.Exporter L.Labels × L.Behaviors) (t : Poller L)
      → L.has_behaviors loaded.1 ≡ true
      → p.raises ≡ true
      → apply_loaded L p loaded t ≡ (true, t)
  unfolding apply_loaded
  apply_loaded-raises p loaded t b x = rw (b, x, apply_loaded) refl

  pub parse_changed-some :
      (p : Poll L) (raw : L.Raw) (t : Poller L)
      → (loaded : Profiles L.Exporter L.Labels × L.Behaviors) → L.parse raw ≡ some loaded
      → parse_changed L p raw t ≡ apply_loaded L p loaded (record t { last_raw = some raw })
  unfolding parse_changed
  parse_changed-some p raw t loaded q = rw (q, parse_changed) refl

  pub parse_changed-none :
      (p : Poll L) (raw : L.Raw) (t : Poller L)
      → L.parse raw ≡ none
      → parse_changed L p raw t ≡ (false, t)
  unfolding parse_changed
  parse_changed-none p raw t q = rw (q, parse_changed) refl

  -- A poll that sees no file or no new time stamp.
  pub data IsIdle (p : Poll L) (t : Poller L) : Type 0 where
    no_file : p.mtime ≡ none → IsIdle p t
    same_stamp : (m : ℕ) → p.mtime ≡ some m → same_time L m t.last_mtime ≡ true → IsIdle p t

  pub poll_once-idle : (p : Poll L) (t : Poller L) → IsIdle p t → poll_once L p t ≡ (false, t)
  unfolding poll_once
  poll_once-idle p t (no_file h) = rw (h, poll_once) refl
  poll_once-idle p t (same_stamp m h s) = rw (h, s, poll_once) refl

  pub poll_once-new :
      (p : Poll L) (t : Poller L) (m : ℕ)
      → p.mtime ≡ some m
      → same_time L m t.last_mtime ≡ false
      → poll_once L p t ≡ read_changed L p (record t { last_mtime = some m })
  unfolding poll_once
  poll_once-new p t m h s = rw (h, s, poll_once) refl

  pub read_changed-none :
      (p : Poll L) (t : Poller L) → p.raw ≡ none → read_changed L p t ≡ (false, t)
  unfolding read_changed
  read_changed-none p t h = rw (h, read_changed) refl

  pub read_changed-same :
      (p : Poll L) (t : Poller L) (raw : L.Raw)
      → p.raw ≡ some raw
      → same_content L raw t.last_raw ≡ true
      → read_changed L p t ≡ (false, t)
  unfolding read_changed
  read_changed-same p t raw h s = rw (h, s, read_changed) refl

  pub read_changed-new :
      (p : Poll L) (t : Poller L) (raw : L.Raw)
      → p.raw ≡ some raw
      → same_content L raw t.last_raw ≡ false
      → read_changed L p t ≡ parse_changed L p raw t
  unfolding read_changed
  read_changed-new p t raw h s = rw (h, s, read_changed) refl
