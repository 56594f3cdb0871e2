-- ===== src/Provision/Paste.antt =====
-- What a shell reads in the commands that an operator pastes.
use zaqorincore.Prelude.{
  append_empty, append_text_assoc, String, Bool, true, false, Option, none, some, List, [], ◌∷◌,
  ◌++◌, map, append, string_eq, ok, ◌>>=◌, >>=-eq-ok, ok-injective, ◌≡◌, refl, sym, ◌∙◌, ap, arith,
}
use zaqorincore.Provision.Quoting.{safe_host, safe_user, safe_key_id, shell_quote, join, concat}
use zaqorincore.Provision.DryRun.{
  DryRunIn, DryRunOut, ssh_args, heredoc, verify_test, install_line, verify_line, dry_run_out,
  post_provision_dry_run,
}
use zaqorincore.Provision.Shell.{shell_words, between, join-shell_quote}

-- A last argument, joined later.
join-last :
    (p : String) (ps : List String) (q : String)
    → concat (join " " (p ∷ ps) ∷ " " ∷ q ∷ []) ≡ join " " ((p ∷ ps) ++ q ∷ [])
unfolding concat join append
join-last p [] q = ap (λ t. append p (append " " t)) (append_empty q)
join-last p (r ∷ ps) q =
    append_text_assoc p (append " " (join " " (r ∷ ps))) (append " " (append q ""))
    ∙ ap (λ t. append p (append " " t)) (join-last r ps q)

map-last :
    (args : List String) (last : String)
    → map shell_quote (args ++ last ∷ []) ≡ map shell_quote args ++ shell_quote last ∷ []
map-last [] last = refl
map-last (a ∷ args) last = ap (◌∷◌ (shell_quote a)) (map-last args last)

abbrev has_program : List String → Bool
has_program [] = false
has_program (a ∷ args) = true

install_line-words :
    (args : List String)
    → has_program args ≡ true
    → shell_words between (install_line args) ≡ some (args ++ heredoc ∷ [])
unfolding install_line
install_line-words [] h = cc h
install_line-words (a ∷ args) h =
    ap (shell_words between) (
      join-last (shell_quote a) (map shell_quote args) (shell_quote heredoc)
      ∙ ap (join " ") (sym (map-last (a ∷ args) heredoc)))
    ∙ join-shell_quote ((a ∷ args) ++ heredoc ∷ [])

verify_line-words :
    (args : List String)
    → shell_words between (verify_line args) ≡ some (args ++ shell_quote verify_test ∷ [])
unfolding verify_line
verify_line-words args = join-shell_quote (args ++ shell_quote verify_test ∷ [])

safe_host-same : (raw host : String) → safe_host raw ≡ ok host → host ≡ raw
unfolding safe_host
safe_host-same raw host h = ground arith

safe_user-same : (raw user : String) → safe_user raw ≡ ok user → user ≡ raw
unfolding safe_user
safe_user-same raw user h = ground arith

safe_key_id-same : (raw id : Option String) → safe_key_id raw ≡ ok id → id ≡ raw
unfolding safe_key_id
safe_key_id-same none id h = ground arith
safe_key_id-same (some raw) id h = ground arith

-- An answer is made from the values of the body, which the checks leave as they are.
dry_run-same :
    (body : DryRunIn) (out : DryRunOut)
    → post_provision_dry_run body ≡ ok out
    → dry_run_out body.port body.host body.user body.ssh_key_id ≡ out
unfolding post_provision_dry_run
dry_run-same body out h =
    let (host, host_ok, after_host) =
      >>=-eq-ok (safe_host body.host)
        (λ host. safe_user body.user >>= λ user.
          safe_key_id body.ssh_key_id >>= λ id. ok (dry_run_out body.port host user id))
        h in
    let (user, user_ok, after_user) =
      >>=-eq-ok (safe_user body.user)
        (λ user. safe_key_id body.ssh_key_id >>= λ id. ok (dry_run_out body.port host user id))
        after_host in
    let (id, id_ok, after_id) =
      >>=-eq-ok (safe_key_id body.ssh_key_id) (λ id. ok (dry_run_out body.port host user id))
        after_user in
    rw
      (
        sym (safe_host-same body.host host host_ok),
        sym (safe_user-same body.user user user_ok),
        sym (safe_key_id-same body.ssh_key_id id id_ok),
      )
      (ok-injective after_id)

-- If the dry run is answered, then a shell splits its install command into the `ssh` arguments and,
-- as one more argument, the script of the here-document.
pub post_provision_dry_run-words :
    (body : DryRunIn) (out : DryRunOut)
    → post_provision_dry_run body ≡ ok out
    → shell_words between out.install_command
      ≡ some (ssh_args body.port body.ssh_key_id body.user body.host ++ heredoc ∷ [])
unfolding dry_run_out ssh_args
post_provision_dry_run-words body out h =
    ap (λ o. shell_words between o.install_command) (sym (dry_run-same body out h))
    ∙ install_line-words (ssh_args body.port body.ssh_key_id body.user body.host) refl

-- If the dry run is answered, then a shell splits its verify command into the `ssh` arguments and one
-- more, which the shell of the remote host, that gets it, reads as one single word: the whole test as
-- the name of a command.
pub post_provision_dry_run-verify :
    (body : DryRunIn) (out : DryRunOut)
    → post_provision_dry_run body ≡ ok out
    → (remote : String) × (shell_words between out.verify_command
        ≡ some (ssh_args body.port body.ssh_key_id body.user body.host ++ remote ∷ []))
      × (shell_words between remote ≡ some (verify_test ∷ []))
unfolding dry_run_out
post_provision_dry_run-verify body out h = (
  shell_quote verify_test,
  ap (λ o. shell_words between o.verify_command) (sym (dry_run-same body out h))
      ∙ verify_line-words (ssh_args body.port body.ssh_key_id body.user body.host),
  unfold join in join-shell_quote (verify_test ∷ []),
)
