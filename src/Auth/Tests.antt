-- ===== src/Auth/Tests.antt =====
-- API keys on concrete requests.
use zaqorincore.Prelude.{String, false, some, ok, ◌≡◌, ◌≢◌, refl, arith, string_eq, ==_iff, ◌==◌}
use zaqorincore.Auth.{Settings, Request, read, roles_from_settings, no_keys, require_role}
use zaqorincore.Auth.Roles.{LetIn, require_role-LetIn}

abbrev settings : Settings
settings = record {
  api_key_read = "r";
  api_key_write = "w";
  api_key_ingest = "i";
  api_key = "old";
  allow_unauthenticated = false;
}

abbrev asking : String → Request
asking key = record { path = "/api/v1/alerts"; method = "get"; x_api_key = some key }

configured : no_keys (roles_from_settings settings) ≡ false
unfolding no_keys roles_from_settings
configured = refl

read_ok : require_role settings (asking "r") ≡ ok read
unfolding require_role
read_ok = refl

require_role-LetIn_example : LetIn (roles_from_settings settings) (asking "r") read
require_role-LetIn_example = require_role-LetIn settings (asking "r") read configured read_ok

differ : (s t : String) → (s == t) ≡ false → s ≢ t
differ s t h e = ground (arith, ==_iff s t)
