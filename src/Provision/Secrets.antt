-- ===== src/Provision/Secrets.antt =====
-- api/v1/agents_provision.py: the rotation of an agent's secret and its live configuration.
use zaqorincore.Prelude.{
  ℕ, String, false, Option, none, some, List, [], ◌∷◌, map, nat_beq, take_text, if◌then◌else◌,
  Result, ok, err, ◌>>=◌,
}
use zaqorincore.Dispatcher.{Host}
use zaqorincore.Provision.Quoting.{ProvisionError, unknown_agent}
use zaqorincore.Provision.Template.{
  linux, amd64, log_source_presets, default_server_url, render_agent_toml, parse_agent_toml,
}

-- A row of the table `hosts`, with the columns that these endpoints read beside the dispatcher's. The
-- column `last_seen_at` is not nullable, but the code allows for `none`.
pub record HostRow : Type 0 where
  pub host : Host
  pub hostname : Option String
  pub last_seen_at : Option ℕ

-- What the other components see of the table.
abbrev pub hosts_of : List HostRow → List Host
hosts_of rows = map (λ r. r.host) rows

-- The SELECT by the primary key.
unfoldable pub find_row : ℕ → List HostRow → Option HostRow
find_row agent_id [] = none
find_row agent_id (r ∷ rows) =
    let later = find_row agent_id rows in if nat_beq r.host.id agent_id then some r else later

unfoldable pub rotated : ℕ → String → HostRow → HostRow
rotated now new_secret r = record {
  host = record { id = r.host.id; secret = some new_secret; auto_block = r.host.auto_block };
  hostname = r.hostname;
  last_seen_at = some now;
}

-- The UPDATE by the primary key.
unfoldable pub store_secret : ℕ → ℕ → String → List HostRow → List HostRow
store_secret now agent_id new_secret [] = []
store_secret now agent_id new_secret (r ∷ rows) =
    let later = store_secret now agent_id new_secret rows in
    if nat_beq r.host.id agent_id then rotated now new_secret r ∷ rows else r ∷ later

pub record RotateSecretOut : Type 0 where
  pub agent_id : ℕ
  pub rotated_at : ℕ
  pub secret_preview : String

-- `new_secret` is the fresh one and `now` the clock.
unfoldable pub post_rotate_secret :
    ℕ → String → ℕ → List HostRow → Result ProvisionError (RotateSecretOut × List HostRow)
post_rotate_secret now new_secret agent_id rows = elim (find_row agent_id rows) [
  | none ↦ err unknown_agent
  | some r ↦ ok (
    record { agent_id = agent_id; rotated_at = now; secret_preview = take_text 8 new_secret },
    store_secret now agent_id new_secret rows,
  )
]

pub record ConfigOut : Type 0 where
  pub agent_id : ℕ
  pub server_url : String
  pub agent_id_field : String
  pub hostname : Option String
  pub last_seen_at : Option ℕ
  pub toml : String
  pub warnings : List String

abbrev pub config_warnings : Option ℕ → List String
config_warnings none = "host has never checked in; the rendered config may be stale" ∷ []
config_warnings (some t) = []

abbrev pub config_of_row {ℓ} :
    {D : Type ℓ}
    → (String → Option D)
    → (ℕ → String)
    → Option HostRow
    → Result ProvisionError ConfigOut
config_of_row loads uuid_text none = err unknown_agent
config_of_row loads uuid_text (some r) = do
  toml_text ← render_agent_toml (record {
    os = linux;
    arch = amd64;
    server_url = default_server_url;
    agent_id = uuid_text r.host.id;
    auth_token = "<hidden — set out-of-band>";
    log_sources = some (log_source_presets linux);
    include_windows_block = false;
  })
  _ ← parse_agent_toml loads toml_text
  ok (record {
    agent_id = r.host.id;
    server_url = default_server_url;
    agent_id_field = uuid_text r.host.id;
    hostname = r.hostname;
    last_seen_at = r.last_seen_at;
    toml = toml_text;
    warnings = config_warnings r.last_seen_at;
  })

unfoldable pub get_agent_config {ℓ} :
    {D : Type ℓ} (loads : String → Option D) (uuid_text : ℕ → String)
    → ℕ
    → List HostRow
    → Result ProvisionError ConfigOut
get_agent_config loads uuid_text agent_id rows =
    config_of_row loads uuid_text (find_row agent_id rows)
