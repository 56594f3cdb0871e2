-- ===== src/Auth.antt =====
-- auth.py: the roles of API keys, and what they may do. Keys are compared as texts, and a method has
-- ASCII letters.
pub mod Roles
pub mod Legacy
mod Tests
use zaqorincore.Prelude.{
  String, Bool, true, false, not, ◌&&◌, ◌||◌, Option, none, some, List, [], ◌∷◌, Result, ok, err,
  ◌>>=◌, ◌>>◌, raise_if, is_empty, upper, contains, any, string_eq, ◌==◌, if◌then◌else◌,
}

pub data Role : Type 0 where
  read write ingest : Role

-- The settings; an empty text is a key that is not set.
pub record Settings : Type 0 where
  pub api_key_read : String
  pub api_key_write : String
  pub api_key_ingest : String
  pub api_key : String
  pub allow_unauthenticated : Bool

-- dict[Role, str], with `none` for a role without a key
pub record RoleKeys : Type 0 where
  pub read_key : Option String
  pub write_key : Option String
  pub ingest_key : Option String

abbrev pub set_key : String → Option String
set_key k = if is_empty k then none else some k

abbrev pub holds : Option String → String → Bool
holds none k = false
holds (some j) k = j == k

unfoldable pub roles_from_settings : Settings → RoleKeys
roles_from_settings s =
    let out : RoleKeys = record {
      read_key = set_key s.api_key_read;
      write_key = set_key s.api_key_write;
      ingest_key = set_key s.api_key_ingest;
    } in
    let known =
      holds out.read_key s.api_key
      || holds out.write_key s.api_key
      || holds out.ingest_key s.api_key in
    if not (is_empty s.api_key) && not known then record out { write_key = some s.api_key } else out

unfoldable pub lookup_role : String → RoleKeys → Option Role
lookup_role presented keys =
    if is_empty presented
    then none
    else if holds keys.read_key presented
    then some read
    else if holds keys.write_key presented
    then some write
    else if holds keys.ingest_key presented
    then some ingest
    else none

abbrev pub reading : List String
reading = "GET" ∷ "HEAD" ∷ "OPTIONS" ∷ []

unfoldable pub allow_method_for_role : Role → String → Bool
unfolding upper
allow_method_for_role write method = true
allow_method_for_role read method = contains (upper method) reading
allow_method_for_role ingest method = upper method == "POST"

-- The HTTPExceptions: 503, two of 401, and 403.
pub data AuthError : Type 0 where
  not_configured : AuthError
  key_missing key_invalid : AuthError
  method_refused : AuthError

pub record Request : Type 0 where
  pub path : String
  pub method : String
  pub x_api_key : Option String

abbrev is_set : Option String → Bool
is_set none = false
is_set (some k) = true

unfoldable pub no_keys : RoleKeys → Bool
no_keys keys = not (is_set keys.read_key || is_set keys.write_key || is_set keys.ingest_key)

-- `not x_api_key`
abbrev presented_key : Option String → Result AuthError String
presented_key none = err key_missing
presented_key (some k) = if is_empty k then err key_missing else ok k

abbrev found_role : Option Role → Result AuthError Role
found_role none = err key_invalid
found_role (some r) = ok r

-- A request under configured keys.
unfoldable pub authenticate : RoleKeys → Request → Result AuthError Role
unfolding lookup_role allow_method_for_role
authenticate keys r = do
  key ← presented_key r.x_api_key
  role ← found_role (lookup_role key keys)
  raise_if (not (r.path == "/api/v1/auth/whoami") && not (allow_method_for_role role r.method))
      method_refused
  ok role

unfoldable pub require_role : Settings → Request → Result AuthError Role
unfolding roles_from_settings no_keys authenticate
require_role s r =
    let keys = roles_from_settings s in
    if no_keys keys
    then (if s.allow_unauthenticated then ok write else err not_configured)
    else authenticate keys r
