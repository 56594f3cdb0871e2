-- ===== src/Auth/Roles.antt =====
-- Who is let in by auth.py.
use zaqorincore.Prelude.{
  String, true, false, Option, none, some, ok, is_empty, upper, contains, string_eq, ◌==◌, ==_iff,
  ◌≡◌, ◌⊎◌, arith, ap, Bool-cases, inl, inr,
}
use zaqorincore.Auth.{
  Role, read, write, ingest, Settings, RoleKeys, holds, reading, roles_from_settings, lookup_role,
  allow_method_for_role, Request, no_keys, authenticate, require_role,
}

-- The key that a role has.
abbrev pub key_of : RoleKeys → Role → Option String
key_of keys read = keys.read_key
key_of keys write = keys.write_key
key_of keys ingest = keys.ingest_key

-- What a role may do: anything, reading, or posting.
abbrev pub MayCall : Role → Request → Type 0
MayCall write r = Unit
MayCall read r = contains (upper r.method) reading ≡ true
MayCall ingest r = upper r.method ≡ "POST"

abbrev or_empty : Option String → String
or_empty none = ""
or_empty (some k) = k

-- A request that is let in presents its role's key, and asks for what the role may do or for its role.
pub record LetIn (keys : RoleKeys) (r : Request) (role : Role) : Type 0 where
  pub presented :
      (key : String) × (r.x_api_key ≡ some key)
      × (is_empty key ≡ false)
      × (key_of keys role ≡ some key)
  pub may : (r.path ≡ "/api/v1/auth/whoami") ⊎ MayCall role r

lookup_role-holds :
    (key : String) (keys : RoleKeys) (role : Role)
    → lookup_role key keys ≡ some role
    → holds (key_of keys role) key ≡ true
unfolding lookup_role
lookup_role-holds key keys read h = ground arith
lookup_role-holds key keys write h = ground arith
lookup_role-holds key keys ingest h = ground arith

holds-eq : (o : Option String) (key : String) → holds o key ≡ true → o ≡ some key
holds-eq none key h = ground arith
holds-eq (some k) key h = ap some ((==_iff k key).0 h)

allow-MayCall :
    (role : Role) (r : Request) → allow_method_for_role role r.method ≡ true → MayCall role r
unfolding allow_method_for_role
allow-MayCall write r h = tt
allow-MayCall read r h = h
allow-MayCall ingest r h = (==_iff (upper r.method) "POST").0 h

authenticate-LetIn :
    (keys : RoleKeys) (r : Request) (role : Role)
    → authenticate keys r ≡ ok role
    → LetIn keys r role
unfolding authenticate
authenticate-LetIn keys r role h = record {
  presented = (
    or_empty r.x_api_key,
    ground arith,
    ground arith,
    holds-eq (key_of keys role) (or_empty r.x_api_key)
        (lookup_role-holds (or_empty r.x_api_key) keys role (ground arith)),
  );
  may = elim (Bool-cases (r.path == "/api/v1/auth/whoami")) [
    | inl whoami ↦ inl ((==_iff r.path "/api/v1/auth/whoami").0 whoami)
    | inr other ↦ inr (allow-MayCall role r (ground arith))
  ];
}

-- If keys are configured, a request is let in under a role only if it presents that role's key and
-- asks for what the role may do, or for the path that tells the role.
pub require_role-LetIn :
    (s : Settings) (r : Request) (role : Role)
    → no_keys (roles_from_settings s) ≡ false
    → require_role s r ≡ ok role
    → LetIn (roles_from_settings s) r role
unfolding require_role
require_role-LetIn s r role configured h =
    authenticate-LetIn (roles_from_settings s) r role (ground arith)
