-- ===== src/Auth/Legacy.antt =====
-- The single API key of auth.py beside the keys of the roles.
use zaqorincore.Prelude.{false, some, err, is_empty, string_eq, ==_iff, ◌≡◌, ◌≢◌, arith}
use zaqorincore.Auth.{Settings, key_invalid, Request, require_role}

-- If the single key is set and equals no role's key, then the key that is configured for writing is
-- refused as invalid, provided it is set and differs from those for reading and ingesting.
pub require_role-shadowed :
    (s : Settings) (r : Request)
    → is_empty s.api_key ≡ false
    → is_empty s.api_key_write ≡ false
    → s.api_key ≢ s.api_key_read
    → s.api_key ≢ s.api_key_write
    → s.api_key ≢ s.api_key_ingest
    → s.api_key_write ≢ s.api_key_read
    → s.api_key_write ≢ s.api_key_ingest
    → r.x_api_key ≡ some s.api_key_write
    → require_role s r ≡ err key_invalid
unfolding require_role
require_role-shadowed s r set w a b c d e h = ground (
  arith,
  ==_iff s.api_key_read s.api_key,
  ==_iff s.api_key_write s.api_key,
  ==_iff s.api_key_ingest s.api_key,
  ==_iff s.api_key_read s.api_key_write,
  ==_iff s.api_key_ingest s.api_key_write,
  ==_iff s.api_key s.api_key_write,
)
