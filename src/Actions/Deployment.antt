-- ===== src/Actions/Deployment.antt =====
-- server/src/zaqorincore_server/deployment.py: the deployment modes and what each of them enables.
-- The CPU budget is in tenths of a per cent.
use zaqorincore.Prelude.{
  ℕ, String, Bool, true, false, not, ◌&&◌, ◌||◌, Option, none, some, List, [], ◌∷◌, Result, ok, err,
  ◌>>=◌, ◌>>◌, raise_if, string_eq, ◌==◌, contains,
}
use zaqorincore.Dict.{Dict, get}

pub data Storage : Type 0 where
  sqlite postgresql : Storage

pub data Transport : Type 0 where
  local websocket : Transport

pub data DetectorSet : Type 0 where
  core standard full : DetectorSet

pub record ModeProfile : Type 0 where
  pub name : String
  pub storage : Storage
  pub transport : Transport
  pub detector_set : DetectorSet
  pub action_kinds : List String
  pub memory_budget_mb : ℕ
  pub cpu_budget_tenths : ℕ
  pub dashboard : Bool
  pub hunt_engine : Bool
  pub federation : Bool
  pub multi_tenant : Bool

abbrev pub individual : ModeProfile
individual = record {
  name = "individual";
  storage = sqlite;
  transport = local;
  detector_set = core;
  action_kinds = "block_ip" ∷ "canary_alert" ∷ "evidence_capture" ∷ [];
  memory_budget_mb = 20;
  cpu_budget_tenths = 15;
  dashboard = false;
  hunt_engine = false;
  federation = false;
  multi_tenant = false;
}

abbrev pub startup : ModeProfile
startup = record {
  name = "startup";
  storage = postgresql;
  transport = websocket;
  detector_set = standard;
  action_kinds =
      "block_ip" ∷ "tarpit_ip" ∷ "canary_alert" ∷ "isolate_host" ∷ "kill_process"
      ∷ "quarantine_file" ∷ "webhook_soar" ∷ "evidence_capture" ∷ [];
  memory_budget_mb = 200;
  cpu_budget_tenths = 50;
  dashboard = true;
  hunt_engine = true;
  federation = false;
  multi_tenant = false;
}

abbrev pub enterprise : ModeProfile
enterprise = record {
  name = "enterprise";
  storage = postgresql;
  transport = websocket;
  detector_set = full;
  action_kinds =
      "block_ip" ∷ "tarpit_ip" ∷ "canary_alert" ∷ "isolate_host" ∷ "kill_process"
      ∷ "quarantine_file" ∷ "revoke_session" ∷ "webhook_soar" ∷ "evidence_capture" ∷ [];
  memory_budget_mb = 1024;
  cpu_budget_tenths = 100;
  dashboard = true;
  hunt_engine = true;
  federation = true;
  multi_tenant = true;
}

abbrev pub profiles : Dict String ModeProfile
profiles = ("individual", individual) ∷ ("startup", startup) ∷ ("enterprise", enterprise) ∷ []

-- The ValueErrors of the module.
pub data ModeError : Type 0 where
  unknown_mode wrong_storage kind_not_enabled : ModeError

abbrev found_profile : Option ModeProfile → Result ModeError ModeProfile
found_profile none = err unknown_mode
found_profile (some p) = ok p

unfoldable pub get_profile : String → Result ModeError ModeProfile
unfolding get
get_profile mode = found_profile (get mode profiles)

unfoldable pub validate_mode_storage : String → String → Result ModeError (Unit {0})
validate_mode_storage mode storage = do
  raise_if (mode == "individual" && not (storage == "sqlite")) wrong_storage
  raise_if ((mode == "startup" || mode == "enterprise") && not (storage == "postgresql"))
      wrong_storage

unfoldable pub validate_mode_action : String → String → Result ModeError (Unit {0})
unfolding get_profile
validate_mode_action mode action_kind = do
  profile ← get_profile mode
  raise_if (not (contains action_kind profile.action_kinds)) kind_not_enabled
