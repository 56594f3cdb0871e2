-- ===== src/Provision/HereDocument.antt =====
-- The here-document of the POSIX installer: what a shell takes as its lines.
use Prim.Native.Char.{code}
use zaqorincore.Prelude.{
  append_text_assoc, ℕ, String, false, Option, none, some, List, [], ◌∷◌, append, has_char, split,
  ◌==◌, ==_iff, nat_beq, Bool-cases, inl, inr, string_eq, strip, if◌then◌else◌, ok, ◌≡◌, refl, sym,
  ◌∙◌, ap, arith,
}
use zaqorincore.Provision.Quoting.{concat}
use zaqorincore.Provision.Template.{is_windows}
use zaqorincore.Provision.Install.{
  InstallCommandIn, InstallCommandOut, Address, has_metacharacter, toml_inline, download_url,
  posix_prefix, posix_suffix, posix_install, post_provision_install_command,
}
use zaqorincore.Provision.Lines.{split-line, has_char-append}

abbrev add_line : String → Option (List String × List String) → Option (List String × List String)
add_line line none = none
add_line line (some (document, rest)) = some (line ∷ document, rest)

-- The lines up to the one that is the delimiter, and those behind it.
unfoldable pub here_document : String → List String → Option (List String × List String)
here_document end [] = none
here_document end (line ∷ lines) =
    let more = here_document end lines in
    if line == end then some ([], lines) else add_line line more

abbrev pub server_line : String
server_line = "server_url = \"wss://zaqorin.example.com:8443/api/v1/events\""

unfoldable pub agent_line : String → String
agent_line id = append "agent_id    = \"" (append id "\"")

unfoldable pub token_line : String → String
token_line token = append "auth_token  = \"" (append token "\"")

inline-lines :
    (id token rest : String)
    → append (toml_inline id token) rest
      ≡ append server_line (
          append "\n"
            (append (agent_line id) (append "\n" (append (token_line token) (append "\n" rest)))))
unfolding toml_inline concat append agent_line token_line
inline-lines id token rest =
    ap (append "server_url = \"wss://zaqorin.example.com:8443/api/v1/events\"\nagent_id    = \"") (
      append_text_assoc id (append "\"\nauth_token  = \"" (append token "\"\n")) rest
      ∙ ap (λ t. append id (append "\"\nauth_token  = \"" t))
          (append_text_assoc token "\"\n" rest
            ∙ sym (append_text_assoc token "\"" (append "\n" rest)))
      ∙ sym (
          append_text_assoc id "\""
            (append "\nauth_token  = \"" (append (append token "\"") (append "\n" rest)))))

line-plain :
    (name value : String)
    → has_char b'\n' name ≡ false
    → has_char b'\n' value ≡ false
    → has_char b'\n' (append name (append value "\"")) ≡ false
line-plain name value h v =
    rw (has_char-append b'\n' name (append value "\""), h, has_char-append b'\n' value "\"", v)
      (unfold has_char in refl)

end-lines :
    split b'\n' (append "ZAQORIN_EOF\n" (append posix_suffix ""))
    ≡ "ZAQORIN_EOF" ∷ posix_suffix ∷ []
unfolding split append
end-lines = refl

-- The lines of the installer behind the start of its here-document.
split-inline :
    (id token : String)
    → has_char b'\n' id ≡ false
    → has_char b'\n' token ≡ false
    → split b'\n' (append (toml_inline id token) (append "ZAQORIN_EOF\n" (append posix_suffix "")))
      ≡ server_line ∷ agent_line id ∷ token_line token ∷ "ZAQORIN_EOF" ∷ posix_suffix ∷ []
split-inline id token h g =
    let end : String = append "ZAQORIN_EOF\n" (append posix_suffix "") in
    ap (split b'\n') (inline-lines id token end)
    ∙ split-line server_line
        (append (agent_line id) (append "\n" (append (token_line token) (append "\n" end))))
        (unfold has_char in refl)
    ∙ ap (◌∷◌ server_line) (
        split-line (agent_line id) (append (token_line token) (append "\n" end))
          (unfold agent_line in line-plain "agent_id    = \"" id (unfold has_char in refl) h)
        ∙ ap (◌∷◌ (agent_line id)) (
            split-line (token_line token) end
              (unfold token_line in line-plain "auth_token  = \"" token (unfold has_char in refl) g)
            ∙ ap (◌∷◌ (token_line token)) end-lines))

abbrev first_code : String → ℕ
first_code String.[] = 0
first_code (String.◌∷◌ c s) = code c

other_line :
    (line end : String) → nat_beq (first_code line) (first_code end) ≡ false → (line == end) ≡ false
other_line line end h = elim (Bool-cases (line == end)) [
  | inl e ↦ let same = ap first_code ((==_iff line end).0 e) in ground (arith, h, same)
  | inr e ↦ e
]

document-lines :
    (id token : String)
    → here_document "ZAQORIN_EOF"
        (server_line ∷ agent_line id ∷ token_line token ∷ "ZAQORIN_EOF" ∷ posix_suffix ∷ [])
      ≡ some (server_line ∷ agent_line id ∷ token_line token ∷ [], posix_suffix ∷ [])
unfolding here_document
document-lines id token =
    rw
      (
        other_line (agent_line id) "ZAQORIN_EOF" (unfold agent_line append in refl),
        other_line (token_line token) "ZAQORIN_EOF" (unfold token_line append in refl),
      )
      refl

no_newline : (id : String) → has_metacharacter id ≡ false → has_char b'\n' id ≡ false
no_newline id h = ground (arith, h)

-- The answer for a checked host and agent id.
installed :
    (parse_ip : String → Option Address) (sha256 : String → String) (token : String)
    (body : InstallCommandIn) (out : InstallCommandOut)
    → is_windows body.os ≡ false
    → post_provision_install_command parse_ip sha256 token body ≡ ok out
    → (has_metacharacter (strip body.agent_id) ≡ false)
      × (out.command
          ≡ posix_install
              (download_url body.os)
              out.sha256
              (toml_inline (strip body.agent_id) token))
unfolding post_provision_install_command
installed parse_ip sha256 token body out os h = ground arith

-- If an installer for another system than Windows is rendered, with a fresh secret without newlines,
-- then behind its fixed start a shell takes three lines as the configuration, those of the server, the
-- agent id and the secret, and runs the fixed commands at the end, whatever the agent id is.
pub post_provision_install_command-here_document :
    (parse_ip : String → Option Address) (sha256 : String → String) (token : String)
    (body : InstallCommandIn) (out : InstallCommandOut)
    → has_char b'\n' token ≡ false
    → is_windows body.os ≡ false
    → post_provision_install_command parse_ip sha256 token body ≡ ok out
    → (rest : String) × (out.command ≡ append (posix_prefix (download_url body.os) out.sha256) rest)
      × (here_document "ZAQORIN_EOF" (split b'\n' rest)
          ≡ some (
            server_line ∷ agent_line (strip body.agent_id) ∷ token_line token ∷ [],
            posix_suffix ∷ [],
          ))
unfolding posix_install concat
post_provision_install_command-here_document parse_ip sha256 token body out plain os h =
    let (safe, command) = installed parse_ip sha256 token body out os h in
    let id = strip body.agent_id in
    (
      append (toml_inline id token) (append "ZAQORIN_EOF\n" (append posix_suffix "")),
      command,
      ap (here_document "ZAQORIN_EOF") (split-inline id token (no_newline id safe) plain)
          ∙ document-lines id token,
    )
