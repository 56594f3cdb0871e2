-- ===== src/Stream/Session.antt =====
-- api/v1/stream.py: `ws_agent`, one connection from its first frame to its end, with
-- service/host_service.py and service/event_service.py. Times are in milliseconds.
use zaqorincore.Prelude.{
  ℕ, ◌+◌, String, Bool, false, not, ◌||◌, Option, none, some, List, [], ◌∷◌, ◌++◌, any, ltb, leb,
  nat_beq, if◌then◌else◌, string_eq, ◌==◌, is_empty, text_length, all_chars, Result, ok, err, ◌>>=◌,
  ◌>>◌, raise_if,
}
use zaqorincore.Actions.Store.{mark_applied, mark_failed}
use zaqorincore.Dispatcher.{Socket, Host, register, unregister, find_host}
use zaqorincore.Depth.{DecodeError, too_deep, malformed, safe_loads}
use zaqorincore.Stream.Frames.{Hello, WireEvent, Ack, Parser, Server, Limits}

abbrev pub max_hello_bytes : ℕ
max_hello_bytes = 65536

-- How a connection ends: a close with its code, or no close of the handler's own.
pub data Ending : Type 0 where
  closed : ℕ → Ending
  left : Ending

-- How a handshake fails: the code, and `agent_id` if it was read by then.
pub record Refusal : Type 0 where
  pub code : ℕ
  pub agent_id : Option ℕ

abbrev pub refuse : ℕ → Option ℕ → Refusal
refuse code agent = record { code = code; agent_id = agent }

-- The codes of frames that cannot be read: a depth error is no JSONDecodeError, and so it counts as a
-- crash, as does a `get` on what is no mapping.
abbrev pub unread : DecodeError → ℕ
unread too_deep = 1011
unread malformed = 1003

module _ (p : Parser) where
  abbrev pub loaded : Result DecodeError p.Object → Result Refusal p.Object
  loaded (err e) = err (refuse (unread e) none)
  loaded (ok o) = ok o

  abbrev pub is_type : String → Option String → Bool
  is_type name none = false
  is_type name (some t) = t == name

  abbrev pub validated : Option Hello → Result Refusal Hello
  validated none = err (refuse 1002 none)
  validated (some h) = ok h

  -- The first frame, up to the check of its nonce.
  unfoldable pub read_hello : String → String → Result Refusal (p.Object × Hello)
  unfolding safe_loads
  read_hello nonce raw = do
    raise_if (ltb max_hello_bytes (text_length raw)) (refuse 1009 none)
    first ← loaded (safe_loads p.decode raw)
    raise_if (not (p.is_mapping first)) (refuse 1011 none)
    raise_if (not (is_type "hello" (p.type_of first))) (refuse 1002 none)
    raise_if (not (p.is_version_2 first)) (refuse 1002 none)
    hello ← validated (p.hello_of first)
    raise_if (is_empty nonce || not (is_type nonce (p.nonce_of first))) (refuse 1002 none)
    ok (first, hello)

  abbrev pub signature : ℕ → Option String → Result Refusal String
  signature agent none = err (refuse 1002 (some agent))
  signature agent (some sig) = if is_empty sig then err (refuse 1002 (some agent)) else ok sig

  -- upsert_on_hello, whose ValueError crashes the handler
  abbrev pub known_host : ℕ → Option Host → Result Refusal Host
  known_host agent none = err (refuse 1011 (some agent))
  known_host agent (some h) = ok h

  abbrev pub secret_of : ℕ → Option String → Result Refusal String
  secret_of agent none = err (refuse 1008 (some agent))
  secret_of agent (some s) = if is_empty s then err (refuse 1008 (some agent)) else ok s

  -- The rest of the handshake. `compare_digest` refuses texts beyond ASCII by a TypeError.
  unfoldable pub check_hello :
      (String → String → String) → String → p.Object → Hello → List Host → Result Refusal Host
  unfolding find_host
  check_hello hmac nonce first hello hosts = do
    sig ← signature hello.agent_id (p.sig_of first)
    host ← known_host hello.agent_id (find_host hello.agent_id hosts)
    secret ← secret_of hello.agent_id host.secret
    raise_if (not (all_chars (λ c. ltb c 128) sig)) (refuse 1011 (some hello.agent_id))
    raise_if (not (hmac secret nonce == sig)) (refuse 1008 (some hello.agent_id))
    ok host

  unfoldable pub handshake :
      (String → String → String) → String → String → List Host → Result Refusal Host
  unfolding read_hello check_hello
  handshake hmac nonce raw hosts =
      read_hello nonce raw >>= λ q. check_hello hmac nonce q.0 q.1 hosts

-- The `finally` of the handler.
unfoldable pub leave : Option ℕ → Server → Server
unfolding unregister
leave none s = s
leave (some agent) s = record s { registry = unregister agent s.registry }

-- persist_event; a duplicate is reported and ignored, as is a failure to publish, and `none` is the
-- IntegrityError of an event whose host is not in the table.
unfoldable pub persist_event : WireEvent → Server → Option Server
persist_event e s =
    if any (λ d. nat_beq d.id e.id) s.events
    then some s
    else if any (λ h. nat_beq h.id e.host_id) s.hosts
    then some (record s {
      events = s.events ++ e ∷ [];
      published = if s.stream_up then s.published ++ e.id ∷ [] else s.published;
    })
    else none

unfoldable pub acknowledge : ℕ → Ack → Server → Server
unfolding mark_applied mark_failed
acknowledge now a s = record s {
  actions =
      if a.applied then (mark_applied now a.id s.actions).0 else (mark_failed now a.id s.actions).0;
}

-- The variables of the loop.
pub record Window : Type 0 where
  pub window_start : ℕ
  pub msg_in_window : ℕ

unfoldable pub count_frame : ℕ → Window → Window
count_frame now w =
    if leb (w.window_start + 60000) now
    then record { window_start = now; msg_in_window = 1 }
    else record w { msg_in_window = w.msg_in_window + 1 }

-- What a frame leads to.
pub data Step : Type 0 where
  go_on : Server → Step
  stop : Ending → Server → Step

abbrev pub continue : Step → (Server → Ending × Server) → Ending × Server
continue (stop e s) k = (e, s)
continue (go_on s) k = k s

-- What is not caught in the loop.
abbrev pub or_crash : Option Server → Server → Step
or_crash none s = stop (closed 1011) s
or_crash (some s') s = go_on s'

module _ (p : Parser) where
  abbrev pub on_event : Option WireEvent → Server → Step
  on_event none s = go_on s
  on_event (some e) s = or_crash (persist_event e s) s

  abbrev pub on_ack : ℕ → Option Ack → Server → Step
  on_ack now none s = go_on s
  on_ack now (some a) s = go_on (acknowledge now a s)

  -- A frame that is a mapping, by its type.
  unfoldable pub on_mapping : ℕ → p.Object → Server → Step
  unfolding persist_event acknowledge
  on_mapping now o s =
      if is_type p "event" (p.type_of o)
      then on_event (p.event_of o) s
      else if is_type p "command_ack" (p.type_of o)
      then on_ack now (p.ack_of o) s
      else if is_type p "bye" (p.type_of o)
      then stop left s
      else go_on s

  abbrev pub on_loaded : ℕ → Result DecodeError p.Object → Server → Step
  on_loaded now (err malformed) s = go_on s
  on_loaded now (err too_deep) s = stop (closed 1011) s
  on_loaded now (ok o) s = if p.is_mapping o then on_mapping now o s else stop (closed 1011) s

  -- One round of the loop, `w` being the window with the frame counted.
  unfoldable pub on_frame : Limits → String → ℕ → Window → Server → Step
  unfolding on_mapping safe_loads
  on_frame lim raw now w s =
      if ltb lim.ws_max_msg_bytes (text_length raw)
      then stop (closed 1009) s
      else if ltb lim.ws_max_msg_per_min w.msg_in_window
      then stop (closed 1013) s
      else on_loaded now (safe_loads p.decode raw) s

  -- The loop over the frames that arrive, with their times; the end of the list is the disconnect.
  unfoldable pub drain : Limits → List (String × ℕ) → Window → Server → Ending × Server
  unfolding on_frame count_frame
  drain lim [] w s = (left, s)
  drain lim ((raw, now) ∷ frames) w s =
      continue (on_frame lim raw now (count_frame now w) s)
        (λ s'. drain lim frames (count_frame now w) s')

  -- What follows the handshake; `start` is when the first window starts.
  unfoldable pub after_handshake :
      Limits → Socket → ℕ → List (String × ℕ) → Server → Result Refusal Host → Ending × Server
  unfolding leave register drain
  after_handshake lim ws start frames s (err r) = (closed r.code, leave r.agent_id s)
  after_handshake lim ws start frames s (ok host) =
      let (e, s') =
        drain lim frames (record { window_start = start; msg_in_window = 0 })
          (record s { registry = register host.id ws s.registry }) in
      (e, leave (some host.id) s')

  -- `ws_agent`: the first frame, then the others.
  unfoldable pub ws_agent :
      (String → String → String)
      → Limits
      → Socket
      → String
      → String
      → ℕ
      → List (String × ℕ)
      → Server
      → Ending × Server
  unfolding handshake after_handshake
  ws_agent hmac lim ws nonce raw start frames s =
      after_handshake lim ws start frames s (handshake p hmac nonce raw s.hosts)
