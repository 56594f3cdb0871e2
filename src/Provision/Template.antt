-- ===== src/Provision/Template.antt =====
-- api/v1/agents_provision.py: the rendered `agent.toml` of an agent, its parse and the template endpoint.
use Prim.Native.Char.{code}
use zaqorincore.Prelude.{
  ℕ, ◌+◌, String, Bool, true, false, ◌&&◌, ◌||◌, Option, none, some, List, [], ◌∷◌, ◌++◌, map, ltb,
  nat_beq, is_empty, append, if◌then◌else◌, Result, ok, err, ◌>>=◌, ◌>>◌, raise_if, take_text,
}
use zaqorincore.Provision.Quoting.{
  ProvisionError, template_too_large, not_parseable, toml_quote, join,
}

-- OSLit
pub data Os : Type 0 where
  linux macos windows : Os

-- ArchLit
pub data Arch : Type 0 where
  amd64 arm64 : Arch

abbrev pub os_text : Os → String
os_text linux = "linux"
os_text macos = "macos"
os_text windows = "windows"

abbrev pub arch_text : Arch → String
arch_text amd64 = "amd64"
arch_text arm64 = "arm64"

abbrev pub is_windows : Os → Bool
is_windows windows = true
is_windows linux = false
is_windows macos = false

-- A row of the log sources, as a dict in its order.
abbrev pub Row : Type 0
Row = List (String × String)

abbrev pub source_row : String → String → Row
source_row name path = ("name", name) ∷ ("path", path) ∷ []

abbrev pub log_source_presets : Os → List Row
log_source_presets linux =
    source_row "auth" "/var/log/auth.log" ∷ source_row "syslog" "/var/log/syslog" ∷ []
log_source_presets macos =
    source_row "unified_auth" "/var/log/auth.log" ∷ source_row "install" "/var/log/install.log" ∷ []
log_source_presets windows =
    source_row "security_evtx" "Security" ∷ source_row "system_evtx" "System" ∷ []

abbrev pub max_template_bytes : ℕ
max_template_bytes = 65536

abbrev pub default_server_url : String
default_server_url = "wss://zaqorin.example.com:8443/api/v1/events"

-- len(s.encode("utf-8"))
unfoldable pub utf8_length : String → ℕ
utf8_length String.[] = 0
utf8_length (String.◌∷◌ c s) =
    let rest = utf8_length s in
    if ltb (code c) 0x80
    then 1 + rest
    else if ltb (code c) 0x800
    then 2 + rest
    else if ltb (code c) 0x10000
    then 3 + rest
    else 4 + rest

-- s.rstrip("\n")
unfoldable pub strip_newlines : String → String
strip_newlines String.[] = String.[]
strip_newlines (String.◌∷◌ c s) =
    let rest = strip_newlines s in
    if is_empty rest && nat_beq (code c) b'\n' then String.[] else String.◌∷◌ c rest

-- f"{k} = {_toml_quote(v)}"
unfoldable pub setting : String × String → String
unfolding append
setting (k, v) = append k (append " = " (toml_quote v))

unfoldable pub table_chunks : List Row → List String
table_chunks [] = []
table_chunks (row ∷ rows) = ("\n[[log_source]]" ∷ map setting row) ++ table_chunks rows

unfoldable pub toml_array_of_tables : List Row → String
toml_array_of_tables rows =
    let chunks = table_chunks rows in append (join "\n" chunks) (if is_nil chunks then "" else "\n")
  where
    is_nil : List String → Bool
    is_nil [] = true
    is_nil (c ∷ cs) = false

-- The arguments of `render_agent_toml`.
pub record Template : Type 0 where
  pub os : Os
  pub arch : Arch
  pub server_url : String
  pub agent_id : String
  pub auth_token : String
  pub log_sources : Option (List Row)
  pub include_windows_block : Bool

abbrev pub sources_of : Template → List Row
sources_of t = given t.log_sources
  where
    given : Option (List Row) → List Row
    given none = log_source_presets t.os
    given (some rows) = rows

-- The list `sections`, up to the log sources and after them.
unfoldable pub head_sections : Template → List String
head_sections t =
    "# ZaqorinCore agent configuration"
    ∷ "# Generated by /api/v1/agents/provision/template"
    ∷ append "# OS: " (append (os_text t.os) (append "    Arch: " (arch_text t.arch)))
    ∷ "# See ARCHITECTURE.md and agent.example.toml for field semantics."
    ∷ ""
    ∷ append "server_url = " (toml_quote t.server_url)
    ∷ append "agent_id    = " (toml_quote t.agent_id)
    ∷ append "auth_token  = " (toml_quote t.auth_token)
    ∷ ""
    ∷ "log_level = \"info\""
    ∷ (if is_windows t.os
        then "state_dir = \"C:\\\\ProgramData\\\\zaqorin-agent\""
        else "state_dir = \"/var/lib/zaqorin-agent\"")
    ∷ "dry_run = true"
    ∷ ""
    ∷ []

unfoldable pub tail_sections : Template → List String
tail_sections t =
    (if t.include_windows_block || is_windows t.os
      then "[windows_eventlog]" ∷ "mode = \"pull\"" ∷ "" ∷ []
      else [])
    ++ "[response]" ∷ "allow_block_ip        = true" ∷ "allow_kill_process    = false"
      ∷ "allow_disable_user    = false" ∷ "block_default_ttl_sec = 3600" ∷ "" ∷ []

unfoldable pub render_agent_toml : Template → Result ProvisionError String
render_agent_toml t =
    let rendered = join "\n" (
      head_sections t
      ++ (strip_newlines (toml_array_of_tables (sources_of t)) ∷ "" ∷ tail_sections t)) in
    raise_if (ltb max_template_bytes (utf8_length rendered)) template_too_large >> ok rendered

-- `tomllib.loads` is the parameter; the parsed document is not used.
unfoldable pub parse_agent_toml {ℓ} :
    {D : Type ℓ} (loads : String → Option D) → String → Result ProvisionError D
parse_agent_toml loads text = elim (loads text) [ none ↦ err not_parseable | some d ↦ ok d ]

pub record TemplateOut : Type 0 where
  pub os : Os
  pub arch : Arch
  pub server_url : String
  pub toml : String
  pub filename : String

-- `auth_token` is the fresh secret and `uuid_hex` the fresh UUID.
unfoldable pub get_provision_template {ℓ} :
    {D : Type ℓ} (loads : String → Option D)
    → Os
    → Arch
    → (auth_token uuid_hex : String) → Result ProvisionError TemplateOut
get_provision_template loads os arch auth_token uuid_hex = do
  toml_text ← render_agent_toml (record {
    os = os;
    arch = arch;
    server_url = default_server_url;
    agent_id = append "agent-" (take_text 12 uuid_hex);
    auth_token = auth_token;
    log_sources = none;
    include_windows_block = false;
  })
  _ ← parse_agent_toml loads toml_text
  ok (record {
    os = os;
    arch = arch;
    server_url = default_server_url;
    toml = toml_text;
    filename = append "agent-" (append (os_text os) (append "-" (append (arch_text arch) ".toml")));
  })
