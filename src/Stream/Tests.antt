-- ===== src/Stream/Tests.antt =====
-- A connection with a toy frame format: each text stands for one frame.
use zaqorincore.Prelude.{
  ℕ, String, true, Option, none, some, List, [], ◌∷◌, ok, err, ◌≡◌, refl, string_eq, ◌==◌,
  if◌then◌else◌, append,
}
use zaqorincore.Actions.Store.{Action, dispatched}
use zaqorincore.Dispatcher.{Host, connection}
use zaqorincore.Stream.Frames.{Hello, WireEvent, Parser, Server, Limits}
use zaqorincore.Stream.Session.{closed, Window, read_hello, check_hello, handshake, ws_agent}
use zaqorincore.Stream.Authentication.{Authenticated, handshake-Authenticated}
use zaqorincore.Stream.Eviction.{ws_agent-evicts}
use zaqorincore.Stream.Effects.{KeepsTables, ws_agent-KeepsTables}

abbrev hello : Hello
hello = record { agent_id = 1; version = "3" }

abbrev event : WireEvent
event = record { schema = "1"; id = 5; timestamp = "t"; host_id = 1; source = "auth"; raw = "x" }

abbrev type_of : String → Option String
type_of o =
    if o == "good"
    then some "hello"
    else if o == "bad"
    then some "hello"
    else if o == "ack"
    then some "command_ack"
    else some "event"

abbrev parser : Parser
parser = record {
  Object = String;
  decode = λ raw. ok raw;
  is_mapping = λ o. true;
  type_of = type_of;
  is_version_2 = λ o. true;
  nonce_of = λ o. some "n";
  sig_of = λ o. if o == "good" then some "sn" else some "zz";
  hello_of = λ o. some hello;
  event_of = λ o. some event;
  ack_of = λ o. some (record { id = 7; applied = true });
}

abbrev host : Host
host = record { id = 1; secret = some "s"; auto_block = true }

abbrev action : Action
action = record {
  id = 7;
  host_id = some 1;
  alert_id = none;
  kind = "block_ip";
  target = "8.8.4.4";
  ttl_sec = none;
  status = dispatched;
  created_at = 3;
  sent_at = some 4;
  acked_at = none;
}

abbrev server : Server
server = record {
  registry = (1, 40) ∷ [];
  hosts = host ∷ [];
  events = [];
  published = [];
  stream_up = true;
  actions = action ∷ [];
}

abbrev limits : Limits
limits = record { ws_max_msg_bytes = 1024; ws_max_msg_per_min = 2 }

abbrev frames : List (String × ℕ)
frames = ("event", 1) ∷ ("event", 2) ∷ ("ack", 3) ∷ ("ack", 4) ∷ []

reads_bad : read_hello parser "n" "bad" ≡ ok ("bad", hello)
unfolding read_hello
reads_bad = refl

refuses_bad :
    check_hello parser append "n" "bad" hello (host ∷ [])
    ≡ err (record { code = 1008; agent_id = some 1 })
unfolding check_hello append
refuses_bad = refl

accepts_good : handshake parser append "n" "good" (host ∷ []) ≡ ok host
unfolding handshake append
accepts_good = refl

handshake-Authenticated_example : Authenticated parser append "n" "good" (host ∷ []) host
handshake-Authenticated_example =
    handshake-Authenticated parser append "n" "good" (host ∷ []) host accepts_good

ws_agent-evicts_example :
    (connection 1 (ws_agent parser append limits 41 "n" "bad" 0 [] server).1.registry ≡ none)
    × ((ws_agent parser append limits 41 "n" "bad" 0 [] server).0 ≡ closed 1008)
    × ((ws_agent parser append limits 41 "n" "bad" 0 [] server).1.actions ≡ action ∷ [])
    × ((ws_agent parser append limits 41 "n" "bad" 0 [] server).1.events ≡ [])
ws_agent-evicts_example =
    ws_agent-evicts parser append "n" limits 41 "bad" 0 [] server "bad" hello
      (record { code = 1008; agent_id = some 1 }) reads_bad refuses_bad

ws_agent-KeepsTables_example :
    KeepsTables server (ws_agent parser append limits 41 "n" "good" 0 frames server).1
ws_agent-KeepsTables_example =
    ws_agent-KeepsTables parser limits append 41 "n" "good" 0 frames server

abbrev first_window : Window
first_window = record { window_start = 0; msg_in_window = 0 }
