-- ===== src/Stream/Eviction.antt =====
-- What a refused handshake of api/v1/stream.py does to the registry of connections.
use zaqorincore.Prelude.{
  ℕ, String, none, some, List, ok, err, ◌>>=◌, ◌≡◌, refl, ◌∙◌, arith, nat_eq, ==_refl, ap,
  string_eq,
}
use zaqorincore.Dict.{get-remove}
use zaqorincore.Dispatcher.{Socket, Host, connection, unregister}
use zaqorincore.Stream.Frames.{Hello, Parser, Server, Limits}
use zaqorincore.Stream.Session.{
  closed, Refusal, read_hello, check_hello, handshake, leave, after_handshake, ws_agent,
}

module _ (p : Parser) (hmac : String → String → String) (nonce : String) where
  -- A hello that reads is refused only with its agent id.
  check_hello-agent_id :
      (first : p.Object) (hello : Hello) (hosts : List Host) (r : Refusal)
      → check_hello p hmac nonce first hello hosts ≡ err r
      → r.agent_id ≡ some hello.agent_id
  unfolding check_hello
  check_hello-agent_id first hello hosts r h = ground arith

  leave-connection :
      (agent : ℕ) (s : Server) → connection agent (leave (some agent) s).registry ≡ none
  unfolding leave connection unregister
  leave-connection agent s = rw (get-remove, ==_refl agent) refl

  refused :
      (raw : String) (hosts : List Host) (first : p.Object) (hello : Hello) (r : Refusal)
      → read_hello p nonce raw ≡ ok (first, hello)
      → check_hello p hmac nonce first hello hosts ≡ err r
      → handshake p hmac nonce raw hosts
        ≡ err (record { code = r.code; agent_id = some hello.agent_id })
  unfolding handshake
  refused raw hosts first hello r reads refuses =
      ap (λ q. q >>= (λ x. check_hello p hmac nonce x.0 x.1 hosts)) reads
      ∙ refuses
      ∙ ap (λ a. err (record { code = r.code; agent_id = a }))
          (check_hello-agent_id first hello hosts r refuses)

  -- If a first frame is well formed and echoes the nonce, and its signature, its agent id or the
  -- host's secret is refused, then the handler leaves no connection of that agent in the registry,
  -- whatever connection it had before; the tables stay as they are.
  pub ws_agent-evicts :
      (lim : Limits) (ws : Socket) (raw : String) (start : ℕ) (frames : List (String × ℕ))
      (s : Server) (first : p.Object) (hello : Hello) (r : Refusal)
      → read_hello p nonce raw ≡ ok (first, hello)
      → check_hello p hmac nonce first hello s.hosts ≡ err r
      → (connection hello.agent_id (ws_agent p hmac lim ws nonce raw start frames s).1.registry
          ≡ none)
        × ((ws_agent p hmac lim ws nonce raw start frames s).0 ≡ closed r.code)
        × ((ws_agent p hmac lim ws nonce raw start frames s).1.actions ≡ s.actions)
        × ((ws_agent p hmac lim ws nonce raw start frames s).1.events ≡ s.events)
  unfolding ws_agent
  ws_agent-evicts lim ws raw start frames s first hello r reads refuses =
      let run =
        ap (after_handshake p lim ws start frames s)
          (refused raw s.hosts first hello r reads refuses) in
      (
        ap (λ x. connection hello.agent_id x.1.registry) run ∙ leave-connection hello.agent_id s,
        ap (λ x. x.0) run,
        ap (λ x. x.1.actions) run ∙ unfold leave in refl,
        ap (λ x. x.1.events) run ∙ unfold leave in refl,
      )
