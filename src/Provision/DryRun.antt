-- ===== src/Provision/DryRun.antt =====
-- api/v1/agents_provision.py: the `ssh` commands of a dry run.
use Prim.Native.Char.{code}
use zaqorincore.Prelude.{
  ℕ, String, Option, none, some, List, [], ◌∷◌, ◌++◌, map, nat_beq, is_empty, decimal,
  if◌then◌else◌, Result, ok, ◌>>=◌,
}
use zaqorincore.Provision.Quoting.{
  ProvisionError, safe_host, safe_user, safe_key_id, shell_quote, join, concat,
}

pub record DryRunIn : Type 0 where
  pub host : String
  pub port : ℕ
  pub user : String
  pub ssh_key_id : Option String

pub record DryRunOut : Type 0 where
  pub host : String
  pub port : ℕ
  pub user : String
  pub install_command : String
  pub verify_command : String
  pub notes : List String

abbrev pub port_args : ℕ → List String
port_args port = if nat_beq port 22 then [] else "-p" ∷ decimal port ∷ []

abbrev pub key_args : Option String → List String
key_args none = []
key_args (some id) = if is_empty id then [] else "-i" ∷ concat ("~/.ssh/" ∷ id ∷ []) ∷ []

unfoldable pub ssh_args : ℕ → Option String → String → String → List String
unfolding decimal concat
ssh_args port key_id user host =
    "ssh" ∷ port_args port
    ++ key_args key_id
    ++ "-o"
      ∷ "BatchMode=yes"
      ∷ "-o"
      ∷ "StrictHostKeyChecking=accept-new"
      ∷ concat (user ∷ "@" ∷ host ∷ [])
      ∷ []

abbrev pub heredoc : String
heredoc =
    "cat > /etc/zaqorin/agent.toml.dry-run <<'ZAQORIN_EOF'\n# dry-run: this file is NOT the real agent config\nserver_url = \"wss://zaqorin.example.com:8443/api/v1/events\"\nlog_level  = \"info\"\nZAQORIN_EOF\nsystemctl --no-pager status zaqorin-agent || true"

abbrev pub verify_test : String
verify_test = "test -f /etc/zaqorin/agent.toml.dry-run && echo OK || echo MISSING"

-- `repr` of a key id: of its characters only a newline at the end is escaped.
unfoldable pub key_repr : String → String
unfolding concat
key_repr id = concat ("'" ∷ escaped id ∷ "'" ∷ [])
  where
    escaped : String → String
    escaped String.[] = String.[]
    escaped (String.◌∷◌ c s) =
        let rest = escaped s in
        if nat_beq (code c) b'\n' then String.◌∷◌ "\\" (String.◌∷◌ "n" rest) else String.◌∷◌ c rest

abbrev pub port_notes : ℕ → List String
port_notes port =
    if nat_beq port 22
    then []
    else concat ("non-default SSH port " ∷ decimal port ∷ "; ensure sshd listens there" ∷ []) ∷ []

abbrev pub key_notes : Option String → List String
key_notes none = []
key_notes (some id) =
    if is_empty id
    then []
    else concat
        ("using local SSH key alias " ∷ key_repr id ∷ "; ensure it is loaded in your agent" ∷ [])
      ∷ []

unfoldable pub install_line : List String → String
unfolding join shell_quote concat
install_line args = concat (join " " (map shell_quote args) ∷ " " ∷ shell_quote heredoc ∷ [])

unfoldable pub verify_line : List String → String
unfolding join shell_quote
verify_line args = join " " (map shell_quote (args ++ shell_quote verify_test ∷ []))

-- The answer for a checked host, user and key.
unfoldable pub dry_run_out : ℕ → String → String → Option String → DryRunOut
dry_run_out port host user key_id = record {
  host = host;
  port = port;
  user = user;
  install_command = install_line (ssh_args port key_id user host);
  verify_command = verify_line (ssh_args port key_id user host);
  notes = port_notes port ++ key_notes key_id;
}

unfoldable pub post_provision_dry_run : DryRunIn → Result ProvisionError DryRunOut
post_provision_dry_run body = do
  host ← safe_host body.host
  user ← safe_user body.user
  key_id ← safe_key_id body.ssh_key_id
  ok (dry_run_out body.port host user key_id)
