-- ===== src/Provision/Rotation.antt =====
-- What the rotation of a secret means for the handshake of api/v1/stream.py, and what the live
-- configuration tells of secrets.
use zaqorincore.Prelude.{
  ℕ, String, false, Option, none, some, List, [], ◌∷◌, map, nat_beq, Bool-cases, inl, inr, ok, ◌≡◌,
  ◌≢◌, refl, sym, ◌∙◌, ap, arith,
}
use zaqorincore.Depth.{safe_loads}
use zaqorincore.Dispatcher.{Host, find_host}
use zaqorincore.Stream.Frames.{Parser}
use zaqorincore.Stream.Session.{handshake}
use zaqorincore.Stream.Authentication.{handshake-Authenticated}
use zaqorincore.Provision.Secrets.{
  HostRow, hosts_of, find_row, rotated, store_secret, RotateSecretOut, post_rotate_secret,
  get_agent_config, config_of_row,
}

find_host-id :
    (id : ℕ) (hosts : List Host) (host : Host) → find_host id hosts ≡ some host → host.id ≡ id
unfolding find_host
find_host-id id [] host h = cc h
find_host-id id (x ∷ hosts) host h = elim (Bool-cases (nat_beq x.id id)) [
  | inl e ↦ ground (arith, h, e)
  | inr e ↦ find_host-id id hosts host (ground (arith, h, e))
]

some_injective : {a b : String} → ◌≡◌ {A = Option String} (some a) (some b) → a ≡ b
some_injective e = cc e

-- The secret that a handshake uses, after the rotation.
store_secret-secret :
    (now agent_id : ℕ) (new_secret : String) (rows : List HostRow) (host : Host)
    → find_host agent_id (hosts_of (store_secret now agent_id new_secret rows)) ≡ some host
    → host.secret ≡ some new_secret
unfolding find_host store_secret rotated
store_secret-secret now agent_id new_secret [] host h = cc h
store_secret-secret now agent_id new_secret (r ∷ rows) host h =
    elim (Bool-cases (nat_beq r.host.id agent_id)) [
      | inl e ↦ ground (arith, h, e)
      | inr e ↦ store_secret-secret now agent_id new_secret rows host (ground (arith, h, e))
    ]

store_secret-other :
    (now agent_id other : ℕ) (new_secret : String) (rows : List HostRow)
    → nat_beq other agent_id ≡ false
    → find_host other (hosts_of (store_secret now agent_id new_secret rows))
      ≡ find_host other (hosts_of rows)
unfolding find_host store_secret rotated
store_secret-other now agent_id other new_secret [] h = refl
store_secret-other now agent_id other new_secret (r ∷ rows) h =
    ground (arith, store_secret-other now agent_id other new_secret rows h)

-- The hosts' ids and secrets replaced as `f` says.
abbrev pub with_secret : (ℕ → Option String) → HostRow → HostRow
with_secret f r = record {
  host = record { id = r.host.id; secret = f r.host.id; auto_block = r.host.auto_block };
  hostname = r.hostname;
  last_seen_at = r.last_seen_at;
}

abbrev secret_in_row : (ℕ → Option String) → Option HostRow → Option HostRow
secret_in_row f none = none
secret_in_row f (some r) = some (with_secret f r)

find_row-with_secret :
    (f : ℕ → Option String) (agent_id : ℕ) (rows : List HostRow)
    → find_row agent_id (map (with_secret f) rows) ≡ secret_in_row f (find_row agent_id rows)
unfolding find_row
find_row-with_secret f agent_id [] = refl
find_row-with_secret f agent_id (r ∷ rows) = elim (Bool-cases (nat_beq r.host.id agent_id)) [
  | inl e ↦ rw e refl
  | inr e ↦ rw e (find_row-with_secret f agent_id rows)
]

-- The live configuration of an agent tells nothing of any secret: it stays the same, with its errors,
-- when the secrets of the hosts are replaced by others.
pub get_agent_config-hides_secrets {ℓ} :
    {D : Type ℓ} (loads : String → Option D) (uuid_text : ℕ → String) (f : ℕ → Option String)
    (agent_id : ℕ) (rows : List HostRow)
    → get_agent_config loads uuid_text agent_id (map (with_secret f) rows)
      ≡ get_agent_config loads uuid_text agent_id rows
unfolding get_agent_config
get_agent_config-hides_secrets loads uuid_text f agent_id rows =
    ap (config_of_row loads uuid_text) (find_row-with_secret f agent_id rows)
    ∙ same (find_row agent_id rows)
  where
    same :
        (o : Option HostRow)
        → config_of_row loads uuid_text (secret_in_row f o) ≡ config_of_row loads uuid_text o
    same none = refl
    same (some r) = refl

stored :
    (now agent_id : ℕ) (new_secret : String) (rows after : List HostRow) (out : RotateSecretOut)
    → post_rotate_secret now new_secret agent_id rows ≡ ok (out, after)
    → store_secret now agent_id new_secret rows ≡ after
unfolding post_rotate_secret
stored now agent_id new_secret rows after out h = ground arith

-- After the secret of an agent is rotated, a handshake that ends well as this agent carries the HMAC of
-- the connection's nonce under the new secret.
pub post_rotate_secret-handshake :
    (p : Parser) (hmac : String → String → String) (nonce raw new_secret : String)
    (now agent_id : ℕ) (rows after : List HostRow) (out : RotateSecretOut) (host : Host)
    → post_rotate_secret now new_secret agent_id rows ≡ ok (out, after)
    → handshake p hmac nonce raw (hosts_of after) ≡ ok host
    → host.id ≡ agent_id
    → (first : p.Object) × (safe_loads p.decode raw ≡ ok first)
      × (p.sig_of first ≡ some (hmac new_secret nonce))
post_rotate_secret-handshake p hmac nonce raw new_secret now agent_id rows after out host h ended
      same =
    let a = handshake-Authenticated p hmac nonce raw (hosts_of after) host ended in
    let id = find_host-id a.hello.agent_id (hosts_of after) host a.known in
    let known = ap (λ i. find_host i (hosts_of after)) (sym same ∙ id) ∙ a.known in
    let fresh = store_secret-secret now agent_id new_secret rows host (
      ap (λ t. find_host agent_id (hosts_of t)) (stored now agent_id new_secret rows after out h)
      ∙ known) in
    let secret = some_injective (sym a.has_secret ∙ fresh) in
    (a.first, a.was_read, a.signed ∙ ap (λ s. some (hmac s nonce)) secret)

-- A rotation leaves what is found for all other agents as it is.
pub post_rotate_secret-others :
    (new_secret : String) (now agent_id other : ℕ) (rows after : List HostRow)
    (out : RotateSecretOut)
    → post_rotate_secret now new_secret agent_id rows ≡ ok (out, after)
    → other ≢ agent_id
    → find_host other (hosts_of after) ≡ find_host other (hosts_of rows)
post_rotate_secret-others new_secret now agent_id other rows after out h differ =
    ap (λ t. find_host other (hosts_of t)) (sym (stored now agent_id new_secret rows after out h))
    ∙ store_secret-other now agent_id other new_secret rows (ground (arith, differ))
