-- ===== src/Provision/Install.antt =====
-- api/v1/agents_provision.py: the command that installs an agent.
use zaqorincore.Prelude.{
  String, Bool, false, ◌||◌, Option, none, some, List, [], ◌∷◌, ◌++◌, is_empty, has_char, strip,
  any, take_text, if◌then◌else◌, Result, ok, ◌>>=◌, ◌>>◌, raise_if,
}
use zaqorincore.Provision.Quoting.{
  ProvisionError, blank_agent_id, invalid_agent_id, safe_host, shell_quote, concat,
}
use zaqorincore.Provision.Template.{
  Os, linux, macos, windows, os_text, is_windows, default_server_url,
}

pub record InstallCommandIn : Type 0 where
  pub agent_id : String
  pub host : String
  pub os : Os

pub record InstallCommandOut : Type 0 where
  pub command : String
  pub sha256 : String
  pub warnings : List String

-- "0" * 64
abbrev pub zero_digest : String
zero_digest = "0000000000000000000000000000000000000000000000000000000000000000"

abbrev pub artifact_sha256_by_os : Os → Option String
artifact_sha256_by_os linux = some zero_digest
artifact_sha256_by_os windows = some zero_digest
artifact_sha256_by_os macos = none

abbrev pub digest_or_zeros : Option String → String
digest_or_zeros none = zero_digest
digest_or_zeros (some d) = d

abbrev pub digest_warnings : Os → Option String → List String
digest_warnings os none =
    concat (
      "no pinned SHA-256 for os='"
      ∷ os_text os
      ∷ "'; the installer will REFUSE to extract until the manifest ships one"
      ∷ [])
    ∷ []
digest_warnings os (some d) = []

-- What an agent id must not contain: " ", "\t", "\n", "\r", '"', "\\", "$", "`"
abbrev pub has_metacharacter : String → Bool
has_metacharacter id =
    any (λ c. has_char c id) (b' ' ∷ b'\t' ∷ b'\n' ∷ b'\r' ∷ b'"' ∷ b'\\' ∷ b'$' ∷ b'`' ∷ [])

unfoldable pub toml_inline : String → String → String
unfolding concat
toml_inline agent_id auth_token = concat (
    "server_url = \"" ∷ default_server_url ∷ "\"\nagent_id    = \"" ∷ agent_id
    ∷ "\"\nauth_token  = \"" ∷ auth_token ∷ "\"\n" ∷ [])

unfoldable pub download_url : Os → String
unfolding concat
download_url os = concat (
    "https://releases.zaqorin.example.com/${ZAQORIN_VERSION:-latest}/zaqorin-agent-"
    ∷ os_text os
    ∷ ".tar.gz"
    ∷ [])

unfoldable pub windows_install : String → String → String → String
unfolding concat
windows_install url digest inline = concat (
    "$ErrorActionPreference = 'Stop'; $url = '" ∷ url
    ∷ "'; $dst = Join-Path $env:TEMP 'zaqorin-agent.tar.gz'; $expected = '" ∷ digest
    ∷ "'; Invoke-WebRequest -Uri $url -OutFile $dst -UseBasicParsing; "
    ∷ "$actual = (Get-FileHash -Algorithm SHA256 -Path $dst).Hash.ToLower(); "
    ∷ "if ($actual -ne $expected) { Remove-Item $dst -Force; "
    ∷ "throw \"SHA-256 mismatch: expected $expected, got $actual\" }; "
    ∷ "New-Item -ItemType Directory -Force -Path 'C:\\ProgramData\\zaqorin-agent' | Out-Null; "
    ∷ "tar -xzf $dst -C 'C:\\ProgramData\\zaqorin-agent'; "
    ∷ "Set-Content -Path 'C:\\ProgramData\\zaqorin-agent\\agent.toml' -Value @'\n" ∷ inline
    ∷ "'@; & 'C:\\ProgramData\\zaqorin-agent\\zaqorin-agent.exe' --register" ∷ [])

-- The POSIX command up to the inline configuration.
unfoldable pub posix_prefix : String → String → String
unfolding concat shell_quote
posix_prefix url digest = concat (
    "set -euo pipefail; tmp=$(mktemp -d); tgz=$tmp/zaqorin-agent.tar.gz; curl -fsSL "
    ∷ shell_quote url
    ∷ " -o $tgz; actual=$(sha256sum $tgz | awk '{print $1}'); expected="
    ∷ shell_quote digest
    ∷ "; if [ \"$actual\" != \"$expected\" ]; then "
    ∷ "echo \"SHA-256 mismatch: expected $expected, got $actual\" >&2; rm -rf $tmp; exit 1; fi; "
    ∷ "tar -xz -C $tmp -f $tgz; install -m 0755 $tmp/zaqorin-agent /usr/local/bin/zaqorin-agent; "
    ∷ "install -d -m 0755 /etc/zaqorin; cat > /etc/zaqorin/agent.toml <<'ZAQORIN_EOF'\n"
    ∷ [])

abbrev pub posix_suffix : String
posix_suffix =
    "install -m 0644 $tmp/zaqorin-agent.service /etc/systemd/system/; systemctl daemon-reload; systemctl enable --now zaqorin-agent"

unfoldable pub posix_install : String → String → String → String
unfolding concat
posix_install url digest inline =
    concat (posix_prefix url digest ∷ inline ∷ "ZAQORIN_EOF\n" ∷ posix_suffix ∷ [])

-- `ipaddress.ip_address`: the six tests of an address, or `none` for a ValueError.
pub record Address : Type 0 where
  pub is_private : Bool
  pub is_loopback : Bool
  pub is_link_local : Bool
  pub is_multicast : Bool
  pub is_reserved : Bool
  pub is_unspecified : Bool

abbrev pub is_internal : Option Address → Bool
is_internal none = false
is_internal (some a) =
    a.is_private || a.is_loopback || a.is_link_local || a.is_multicast || a.is_reserved
    || a.is_unspecified

unfoldable pub host_warnings : Bool → String → List String
unfolding concat
host_warnings internal fingerprint =
    if internal
    then []
    else concat (
        "host " ∷ fingerprint
        ∷ " is a public DNS name (name redacted — see server logs); the installer will reach the public release bucket"
        ∷ [])
      ∷ []

-- `parse_ip` is `ipaddress.ip_address`, `sha256` gives a hexadecimal digest, `auth_token` is the fresh
-- secret.
unfoldable pub post_provision_install_command :
    (parse_ip : String → Option Address) (sha256 : String → String)
    → String
    → InstallCommandIn
    → Result ProvisionError InstallCommandOut
post_provision_install_command parse_ip sha256 auth_token body = do
  host ← safe_host body.host
  let agent_id = strip body.agent_id
  raise_if (is_empty agent_id) blank_agent_id
  raise_if (has_metacharacter agent_id) invalid_agent_id
  let digest = digest_or_zeros (artifact_sha256_by_os body.os)
  let inline = toml_inline agent_id auth_token
  ok (record {
    command =
        if is_windows body.os
        then windows_install (download_url body.os) digest inline
        else posix_install (download_url body.os) digest inline;
    sha256 = digest;
    warnings =
        digest_warnings body.os (artifact_sha256_by_os body.os)
        ++ host_warnings (is_internal (parse_ip host)) (take_text 12 (sha256 host));
  })
