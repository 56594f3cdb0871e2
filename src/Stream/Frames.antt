-- ===== src/Stream/Frames.antt =====
-- What the handler of agents' WebSockets reads of a frame (schemas/wire.py), and the state of the
-- server that it works on. Pydantic and the JSON decoder are the parameter `Parser`.
use zaqorincore.Prelude.{ℕ, String, Bool, Option, List, Result}
use zaqorincore.Actions.Store.{Action}
use zaqorincore.Dispatcher.{Registry, Host}
use zaqorincore.Depth.{DecodeError}

-- HelloFrame
pub record Hello : Type 0 where
  pub agent_id : ℕ
  pub version : String

-- EventInner, its time as text
pub record WireEvent : Type 0 where
  pub schema : String
  pub id : ℕ
  pub timestamp : String
  pub host_id : ℕ
  pub source : String
  pub raw : String

-- CommandAckFrame; the status is `applied` or else `failed`.
pub record Ack : Type 0 where
  pub id : ℕ
  pub applied : Bool

-- What the libraries say of a frame: `decode` is the JSON decoder, `is_mapping` whether it has made a
-- `dict`, the next four what `get` finds there (a nonce or signature that is no text counts as
-- missing), and the last three the validation, where `none` is the ValidationError.
pub record Parser : Type 1 where
  pub Object : Type 0
  pub decode : String → Result DecodeError Object
  pub is_mapping : Object → Bool
  pub type_of : Object → Option String
  pub is_version_2 : Object → Bool
  pub nonce_of : Object → Option String
  pub sig_of : Object → Option String
  pub hello_of : Object → Option Hello
  pub event_of : Object → Option WireEvent
  pub ack_of : Object → Option Ack

-- What the handler shares with the other handlers and tasks: the registry of connections and the
-- tables, with the ids of the events on the Redis
-- stream and whether it takes entries.
pub record Server : Type 0 where
  pub registry : Registry
  pub hosts : List Host
  pub events : List WireEvent
  pub published : List ℕ
  pub stream_up : Bool
  pub actions : List Action

-- The settings of the handler.
pub record Limits : Type 0 where
  pub ws_max_msg_bytes : ℕ
  pub ws_max_msg_per_min : ℕ
