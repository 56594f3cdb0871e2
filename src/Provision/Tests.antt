-- ===== src/Provision/Tests.antt =====
-- The provisioning of one agent: a configuration, its commands and a rotation of its secret.
use zaqorincore.Prelude.{
  ℕ, String, true, false, Option, none, some, [], ◌∷◌, ◌++◌, map, append, split, strip, has_char,
  take_text, ok, err, ◌≡◌, refl, string_eq, nat_eq,
}
use zaqorincore.Depth.{safe_loads}
use zaqorincore.Dispatcher.{Host}
use zaqorincore.Stream.Frames.{Parser}
use zaqorincore.Stream.Session.{handshake}
use zaqorincore.Provision.Quoting.{
  toml_quote, unicode_escape, hex_digit, toml_chars, toml_char, safe_host, safe_user, safe_key_id,
  join,
}
use zaqorincore.Provision.Template.{
  linux, amd64, Template, sources_of, strip_newlines, toml_array_of_tables, head_sections,
  tail_sections, render_agent_toml, utf8_length, table_chunks, setting,
}
use zaqorincore.Provision.DryRun.{
  DryRunIn, DryRunOut, ssh_args, heredoc, verify_test, dry_run_out, post_provision_dry_run,
}
use zaqorincore.Provision.Install.{
  InstallCommandIn, InstallCommandOut, Address, download_url, posix_prefix, posix_suffix,
  posix_install, toml_inline, host_warnings, zero_digest, post_provision_install_command,
}
use zaqorincore.Provision.Secrets.{
  HostRow, RotateSecretOut, find_row, store_secret, rotated, post_rotate_secret, get_agent_config,
}
use zaqorincore.Provision.Toml.{read_basic, codes, toml_quote-read}
use zaqorincore.Provision.Shell.{shell_words, between}
use zaqorincore.Provision.Config.{all_keys_plain, shown_sources, render_agent_toml-lines}
use zaqorincore.Provision.Paste.{post_provision_dry_run-words, post_provision_dry_run-verify}
use zaqorincore.Provision.HereDocument.{
  here_document, server_line, agent_line, token_line, post_provision_install_command-here_document,
}
use zaqorincore.Provision.Rotation.{
  with_secret, post_rotate_secret-handshake, get_agent_config-hides_secrets,
}

toml_quote-read_example :
    read_basic (append (toml_quote "a\"\n") " # end") ≡ some (codes "a\"\n", " # end")
toml_quote-read_example = toml_quote-read "a\"\n" " # end"

abbrev template : Template
template = record {
  os = linux;
  arch = amd64;
  server_url = "wss://a\nx";
  agent_id = "a-1";
  auth_token = "t";
  log_sources = none;
  include_windows_block = false;
}

abbrev rendered : String
rendered = join "\n" (
    head_sections template
    ++ strip_newlines (toml_array_of_tables (sources_of template)) ∷ "" ∷ tail_sections template)

renders : render_agent_toml template ≡ ok rendered
unfolding render_agent_toml utf8_length join head_sections tail_sections strip_newlines
    toml_array_of_tables table_chunks setting append toml_quote toml_chars toml_char unicode_escape
    hex_digit
renders = refl

keys_are_plain : all_keys_plain (sources_of template) ≡ true
unfolding has_char
keys_are_plain = refl

render_agent_toml-lines_example :
    split 10 rendered
    ≡ head_sections template ++ (shown_sources (sources_of template) ++ "" ∷ tail_sections template)
render_agent_toml-lines_example = render_agent_toml-lines template rendered keys_are_plain renders

abbrev body : DryRunIn
body = record { host = "h-1.example.com"; port = 2222; user = "root"; ssh_key_id = some "k@1" }

abbrev answer : DryRunOut
answer = dry_run_out 2222 "h-1.example.com" "root" (some "k@1")

dry_runs : post_provision_dry_run body ≡ ok answer
unfolding post_provision_dry_run safe_host safe_user safe_key_id
dry_runs = refl

dry_run_args :
    ssh_args 2222 (some "k@1") "root" "h"
    ≡ "ssh" ∷ "-p" ∷ "2222" ∷ "-i" ∷ "~/.ssh/k@1" ∷ "-o" ∷ "BatchMode=yes" ∷ "-o"
      ∷ "StrictHostKeyChecking=accept-new" ∷ "root@h" ∷ []
unfolding ssh_args
dry_run_args = refl

post_provision_dry_run-words_example :
    shell_words between answer.install_command
    ≡ some (ssh_args 2222 (some "k@1") "root" "h-1.example.com" ++ heredoc ∷ [])
post_provision_dry_run-words_example = post_provision_dry_run-words body answer dry_runs

post_provision_dry_run-verify_example :
    (remote : String) × (shell_words between answer.verify_command
      ≡ some (ssh_args 2222 (some "k@1") "root" "h-1.example.com" ++ remote ∷ []))
    × (shell_words between remote ≡ some (verify_test ∷ []))
post_provision_dry_run-verify_example = post_provision_dry_run-verify body answer dry_runs

abbrev safe_body : InstallCommandIn
safe_body = record { agent_id = " a';rm \n"; host = "h1"; os = linux }

abbrev no_address : String → Option Address
no_address s = none

abbrev short_digest : String → String
short_digest s = "abcdefabcdefabcdef"

abbrev installer : InstallCommandOut
installer = record {
  command = posix_install (download_url linux) zero_digest (toml_inline "a';rm" "t0");
  sha256 = zero_digest;
  warnings = host_warnings false "abcdefabcdef";
}

installs : post_provision_install_command no_address short_digest "t0" safe_body ≡ ok installer
unfolding post_provision_install_command safe_host strip has_char take_text
installs = refl

token_is_plain : has_char 10 "t0" ≡ false
unfolding has_char
token_is_plain = refl

post_provision_install_command-here_document_example :
    (rest : String) × (installer.command
      ≡ append (posix_prefix (download_url linux) zero_digest) rest)
    × (here_document "ZAQORIN_EOF" (split 10 rest)
        ≡ some (
          server_line ∷ agent_line (strip " a';rm \n") ∷ token_line "t0" ∷ [],
          posix_suffix ∷ [],
        ))
post_provision_install_command-here_document_example =
    post_provision_install_command-here_document no_address short_digest "t0" safe_body installer
      token_is_plain refl installs

abbrev parser : Parser
parser = record {
  Object = String;
  decode = λ raw. ok raw;
  is_mapping = λ o. true;
  type_of = λ o. some "hello";
  is_version_2 = λ o. true;
  nonce_of = λ o. some "n";
  sig_of = λ o. some o;
  hello_of = λ o. some (record { agent_id = 1; version = "3" });
  event_of = λ o. none;
  ack_of = λ o. none;
}

abbrev agent : String → Host
agent secret = record { id = 1; secret = some secret; auto_block = true }

abbrev row : String → Option ℕ → HostRow
row secret seen = record { host = agent secret; hostname = none; last_seen_at = seen }

abbrev preview : RotateSecretOut
preview = record { agent_id = 1; rotated_at = 9; secret_preview = "new" }

rotates : post_rotate_secret 9 "new" 1 (row "old" none ∷ []) ≡ ok (preview, row "new" (some 9) ∷ [])
unfolding post_rotate_secret find_row store_secret rotated take_text
rotates = refl

shakes_hands : handshake parser append "n" "newn" (agent "new" ∷ []) ≡ ok (agent "new")
unfolding handshake append
shakes_hands = refl

refuses_old :
    handshake parser append "n" "oldn" (agent "new" ∷ [])
    ≡ err (record { code = 1008; agent_id = some 1 })
unfolding handshake append
refuses_old = refl

post_rotate_secret-handshake_example :
    (first : String) × (safe_loads parser.decode "newn" ≡ ok first)
    × (some first ≡ some (append "new" "n"))
post_rotate_secret-handshake_example =
    post_rotate_secret-handshake parser append "n" "newn" "new" 9 1 (row "old" none ∷ [])
      (row "new" (some 9) ∷ []) preview (agent "new") rotates shakes_hands refl

abbrev uuid_text : ℕ → String
uuid_text n = "u"

abbrev other_secrets : ℕ → Option String
other_secrets n = some "other"

get_agent_config-hides_secrets_example :
    get_agent_config
      (λ s. some s)
      uuid_text
      1
      (map (with_secret other_secrets) (row "old" none ∷ []))
    ≡ get_agent_config (λ s. some s) uuid_text 1 (row "old" none ∷ [])
get_agent_config-hides_secrets_example =
    get_agent_config-hides_secrets (λ s. some s) uuid_text other_secrets 1 (row "old" none ∷ [])
