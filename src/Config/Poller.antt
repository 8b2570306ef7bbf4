-- ===== src/Config/Poller.antt =====
-- `_SdkConfigPoller` of aerospike_sdk/sdk_config_monitor.py: the reload of a configuration file.
pub mod Laws
pub mod Reload
use aerospike_client_python.Base.{
  ℕ, Bool, true, false, ◌==◌, String, Option, none, some, List, [], ◌∷◌, ◌≡◌, if◌then◌else◌,
}
use aerospike_client_python.Base.Dict.{IsEquality}
use aerospike_client_python.Config.Equality.{same_settings}
use aerospike_client_python.Config.{SystemSettings, Profiles, effective}

-- The file's bytes and their parse, which is that of a YAML library, with the equality of the values
-- that the settings hold; `has_behaviors` is the truth of a section.
pub record Loader : Type 1 where
  pub Exporter : Type 0
  pub Labels : Type 0
  pub Raw : Type 0
  pub Behaviors : Type 0
  pub has_behaviors : Behaviors → Bool
  pub parse : Raw → Option (Profiles Exporter Labels × Behaviors)
  pub same_raw : Raw → Raw → Bool
  pub same_raw-IsEquality : IsEquality same_raw
  pub same_exporter : Exporter → Exporter → Bool
  pub same_exporter-IsEquality : IsEquality same_exporter
  pub same_labels : Labels → Labels → Bool
  pub same_labels-IsEquality : IsEquality same_labels

module _ (L : Loader) where
  abbrev pub Settings : Type 0
  Settings = SystemSettings L.Exporter L.Labels

  abbrev pub same : Settings → Settings → Bool
  same a b = same_settings L.same_exporter L.same_labels a b

  -- `applied` holds the settings that the client was given, and `behaviors_applied` the sections
  -- that the registry was, newest first.
  pub record Poller : Type 0 where
    pub cluster_name : Option String
    pub programmatic : Option Settings
    pub current : Settings
    pub last_mtime : Option ℕ
    pub last_raw : Option L.Raw
    pub applied : List Settings
    pub behaviors_applied : List L.Behaviors

  -- What a poll finds: the time stamp and the bytes, none where the call fails, and whether
  -- applying behaviors raises.
  pub record Poll : Type 0 where
    pub mtime : Option ℕ
    pub raw : Option L.Raw
    pub raises : Bool

  abbrev pub same_time : ℕ → Option ℕ → Bool
  same_time m none = false
  same_time m (some last) = m == last

  abbrev pub same_content : L.Raw → Option L.Raw → Bool
  same_content raw none = false
  same_content raw (some last) = L.same_raw raw last

  abbrev pub resolved : Profiles L.Exporter L.Labels → Poller → Settings
  unfolding effective
  resolved profiles t = effective L.Exporter L.Labels profiles t.cluster_name t.programmatic

  abbrev pub swap : Settings → Poller → Bool × Poller
  swap s t =
      (false, if same s t.current then t else record t { current = s; applied = s ∷ t.applied })

  abbrev pub apply_loaded :
      Poll → Profiles L.Exporter L.Labels × L.Behaviors → Poller → Bool × Poller
  unfolding resolved
  apply_loaded p loaded t =
      if L.has_behaviors loaded.1
      then if p.raises
        then (true, t)
        else swap (resolved loaded.0 t)
            (record t { behaviors_applied = loaded.1 ∷ t.behaviors_applied })
      else swap (resolved loaded.0 t) t

  abbrev pub parse_changed : Poll → L.Raw → Poller → Bool × Poller
  unfolding apply_loaded
  parse_changed p raw t = elim (L.parse raw) [
    | none ↦ (false, t)
    | some loaded ↦ apply_loaded p loaded (record t { last_raw = some raw })
  ]

  abbrev pub read_changed : Poll → Poller → Bool × Poller
  unfolding parse_changed
  read_changed p t = elim p.raw [
    | none ↦ (false, t)
    | some raw ↦ if same_content raw t.last_raw then (false, t) else parse_changed p raw t
  ]

  -- `poll_once`: whether it raises, and the poller that it leaves.
  unfoldable pub poll_once : Poll → Poller → Bool × Poller
  unfolding read_changed
  poll_once p t = elim p.mtime [
    | none ↦ (false, t)
    | some m ↦
        if same_time m t.last_mtime
        then (false, t)
        else read_changed p (record t { last_mtime = some m })
  ]
