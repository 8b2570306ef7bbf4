-- ===== src/Tests/Config.antt =====
-- A file of two profiles, its reload, and a reload whose behaviors cannot be applied.
use aerospike_client_python.Base.{
  ℕ, zero, suc, pos, ◌==◌, ==_iff, str_eq, Bool, true, false, none, some, List, [], ◌∷◌, ◌≡◌, ◌⊎◌,
  refl,
}
use aerospike_client_python.Base.Dict.{get}
use aerospike_client_python.Config.{
  SystemSettings, no_settings, over, Profiles, named_profile, effective,
}
use aerospike_client_python.Config.Fields.{
  tend_interval_field, read, read_layer, default_of, read-effective,
}
use aerospike_client_python.Config.Poller.{Loader, Poller, Poll, poll_once}
use aerospike_client_python.Config.Poller.Reload.{
  connected, parsed, in_force, poll_once-in_force, poll_all, poll_once-raises,
}
use aerospike_client_python.Config.Adopt.{Source, adopt_discovered_cluster_name}
use aerospike_client_python.Config.Adopt.Laws.{IsAdoption, adopt_discovered_cluster_name_lem}

abbrev tend : ℕ → SystemSettings ℕ ℕ
tend n = record (no_settings ℕ ℕ) { tend_interval = some (pos n) }

abbrev profiles : ℕ → Profiles ℕ ℕ
profiles n = ("DEFAULT", tend n) ∷ ("fast", tend 5) ∷ []

read-effective_example :
    read ℕ ℕ tend_interval_field (effective ℕ ℕ (profiles 7) (some "fast") none)
    ≡ over (read_layer ℕ ℕ tend_interval_field (named_profile ℕ ℕ (profiles 7) (some "fast"))) (
        over
          (read_layer ℕ ℕ tend_interval_field (get str_eq "DEFAULT" (profiles 7)))
          (over (read_layer ℕ ℕ tend_interval_field none) (default_of ℕ ℕ tend_interval_field)))
read-effective_example = read-effective ℕ ℕ tend_interval_field (profiles 7) (some "fast") none

-- The bytes 0 do not parse, and the bytes `n` set the default profile's interval to `n`.
abbrev loader : Loader
loader = record {
  Exporter = ℕ;
  Labels = ℕ;
  Raw = ℕ;
  Behaviors = ℕ;
  has_behaviors = λ b. true;
  parse = λ raw. elim raw [ zero ↦ none | suc n ↦ some (profiles (suc n), 3) ];
  same_raw = ◌==◌;
  same_raw-IsEquality = ==_iff;
  same_exporter = ◌==◌;
  same_exporter-IsEquality = ==_iff;
  same_labels = ◌==◌;
  same_labels-IsEquality = ==_iff;
}

abbrev poller : Poller loader
poller = record {
  cluster_name = none;
  programmatic = none;
  current = tend 1;
  last_mtime = some 10;
  last_raw = none;
  applied = [];
  behaviors_applied = [];
}

abbrev reload : Bool → Poll loader
reload raises = record { mtime = some 11; raw = some 9; raises = raises }

poll_once-in_force_example :
    (poll_once loader (reload false) poller).1.current
    ≡ in_force loader poller (parsed loader (some 9))
poll_once-in_force_example =
    poll_once-in_force loader (reload false) 11 (connected poller (λ raw loaded e. absurd (cc e)))
      refl refl refl

-- Two polls that find the same bytes under new time stamps, and could apply behaviors.
abbrev later : List (Poll loader)
later = record (reload false) { mtime = some 12 } ∷ record (reload false) { mtime = some 13 } ∷ []

poll_once-raises_example :
    let again = poll_all loader later (poll_once loader (reload true) poller).1 in
    ((poll_once loader (reload true) poller).0 ≡ true)
    × ((poll_once loader (reload true) poller).1.current ≡ tend 1)
    × (again.current ≡ tend 1)
    × (again.applied ≡ [])
poll_once-raises_example =
    poll_once-raises loader (reload true) later poller 11 9 (profiles 9, 3) refl refl refl refl refl
      refl refl (refl, (refl, tt))

abbrev undeclared : Source loader
undeclared = record { cluster_name = none; programmatic = none; initial_raw = some 9 }

adopt_discovered_cluster_name_example :
    let r = adopt_discovered_cluster_name loader (some "fast") (tend 1) undeclared in
    (r ≡ (tend 1, undeclared)) ⊎ IsAdoption loader (some "fast") (tend 1) undeclared r
adopt_discovered_cluster_name_example =
    adopt_discovered_cluster_name_lem loader (some "fast") (tend 1) undeclared
