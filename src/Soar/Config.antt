-- ===== src/Soar/Config.antt =====
-- soar/config.py and soar/__init__.py: the configuration of the backends, the severity order, the
-- records of a delivery and the registry of backends.
use zaqorincore.Prelude.{
  ℕ, String, Bool, Option, none, some, List, [], ◌∷◌, lower, leb, if◌then◌else◌, string_eq, ◌==◌,
}
use zaqorincore.Dict.{Dict, get}

abbrev pub severity_order : Dict String ℕ
severity_order = ("info", 0) ∷ ("low", 1) ∷ ("medium", 2) ∷ ("high", 3) ∷ ("critical", 4) ∷ []

abbrev or_zero : Option ℕ → ℕ
or_zero none = 0
or_zero (some n) = n

unfoldable pub severity_rank : String → ℕ
unfolding get lower
severity_rank s = or_zero (get (lower s) severity_order)

unfoldable pub severity_meets : String → String → Bool
unfolding severity_rank
severity_meets actual minimum = leb (severity_rank minimum) (severity_rank actual)

pub record BackendConfig : Type 0 where
  pub enabled : Bool
  pub cooldown_sec : ℕ
  pub severity_min : String
  pub tags_filter : List String
  pub max_retries : ℕ

pub record Alert : Type 0 where
  pub id : String
  pub host_id : String
  pub detector : String
  pub severity : String
  pub tags : List String
  pub summary : String
  pub evidence : Option String
  pub metadata : Dict String String

-- `DeliveryResult`, with the payload's hash of `DeliverOutcome`.
pub record Outcome : Type 0 where
  pub backend : String
  pub alert_id : String
  pub status_code : ℕ
  pub attempted_at : ℕ
  pub duration_ms : ℕ
  pub error : Option String
  pub dead_lettered : Bool
  pub payload_sha256 : String

-- A registered backend is known by its name; what `deliver` does lies with the worker's environment.
-- `register` replaces an entry of the same name in place.
unfoldable pub register : String → List String → List String
register name [] = name ∷ []
register name (b ∷ bs) = if b == name then name ∷ bs else b ∷ register name bs
