-- ===== src/Dispatcher.antt =====
-- server/src/zaqorincore_server/dispatcher.py: the registry of agents' connections, and the task that
-- signs pending actions and sends them. UUIDs and sockets are numbers. What lies outside the program
-- is `World`: the environment's override, the clock's text, the HMAC, whether a send succeeds, and
-- whether the database takes the update that follows it.
pub mod Safety
pub mod Progress
mod Tests
use zaqorincore.Prelude.{
  ℕ, suc, String, Bool, true, false, not, ◌&&◌, Option, none, some, List, [], ◌∷◌, ◌++◌, map,
  length, take, keep, Result, ok, err, is_empty, and_then, leb, nat_beq, if◌then◌else◌, nat_eq,
}
use zaqorincore.Dict.{Dict, get, put, remove}
use zaqorincore.Crypto.{Command, sign_command}
use zaqorincore.Actions.Kinds.{Kind, is_valid_kind, get_kind}
use zaqorincore.Actions.Targets.{validate_target}
use zaqorincore.Actions.Deployment.{validate_mode_action}
use zaqorincore.Actions.Store.{Action, pending, has_status, mark_dispatched}

abbrev pub Socket : Type 0
Socket = ℕ

-- HostConnectionRegistry
abbrev pub Registry : Type 0
Registry = Dict ℕ Socket

unfoldable pub register : ℕ → Socket → Registry → Registry
register host_id ws r = put host_id ws r

unfoldable pub unregister : ℕ → Registry → Registry
unregister host_id r = remove host_id r

unfoldable pub connection : ℕ → Registry → Option Socket
connection host_id r = get host_id r

unfoldable pub count : Registry → ℕ
count r = length r

unfoldable pub host_ids : Registry → List ℕ
host_ids r = map (λ e. e.0) r

pub record Host : Type 0 where
  pub id : ℕ
  pub secret : Option String
  pub auto_block : Bool

pub record Frame : Type 0 where
  pub id : String
  pub kind : String
  pub target : String
  pub ttl_sec : Option ℕ
  pub issued_at : String
  pub hmac : String

-- `issued_at id` is the text of the clock when the action `id` is signed; `updates id` is whether
-- `mark_dispatched` of the action `id` commits or raises.
pub record World : Type 0 where
  pub allow_dangerous : Bool
  pub deployment_mode : String
  pub uuid_text : ℕ → String
  pub issued_at : ℕ → String
  pub hmac : String → String → String
  pub send : Socket → Frame → Bool
  pub updates : ℕ → Bool

-- `ttl_sec or 0`
abbrev ttl_or_zero : Option ℕ → ℕ
ttl_or_zero none = 0
ttl_or_zero (some n) = n

-- The signed fields of an action.
unfoldable pub command_of : World → Action → Command
command_of w a = record {
  command_id = w.uuid_text a.id;
  kind = a.kind;
  target = a.target;
  ttl_sec = ttl_or_zero a.ttl_sec;
  issued_at = w.issued_at a.id;
}

unfoldable pub signed_frame : World → Action → String → Frame
signed_frame w a secret = record {
  id = w.uuid_text a.id;
  kind = a.kind;
  target = a.target;
  ttl_sec = a.ttl_sec;
  issued_at = w.issued_at a.id;
  hmac = sign_command w.hmac secret (command_of w a);
}

-- The checks after the secret's, in the source's order.
unfoldable pub checked_frame : World → Action → Host → String → Option Frame
unfolding signed_frame
checked_frame w a h secret =
    if is_valid_kind a.kind
    then elim (validate_target w.allow_dangerous a.kind a.target) [
      | err e ↦ none
      | ok u ↦ elim (validate_mode_action w.deployment_mode a.kind) [
        | err e ↦ none
        | ok u' ↦ elim (get_kind a.kind) [
          | err e ↦ none
          | ok k ↦
              if k.requires_host_opt_in && not h.auto_block
              then none
              else some (signed_frame w a secret)
        ]
      ]
    ]
    else none

unfoldable pub build_command_frame : World → Action → Host → Option Frame
unfolding checked_frame
build_command_frame w a h = elim h.secret [
  | none ↦ none
  | some secret ↦ if is_empty secret then none else checked_frame w a h secret
]

pub record State : Type 0 where
  pub actions : List Action
  pub hosts : List Host
  pub registry : Registry
  pub sent : List (Socket × Frame)

unfoldable pub find_host : ℕ → List Host → Option Host
find_host id [] = none
find_host id (h ∷ hs) = if nat_beq h.id id then some h else find_host id hs

unfoldable pub insert_by_created : Action → List Action → List Action
insert_by_created a [] = a ∷ []
insert_by_created a (b ∷ bs) =
    if leb a.created_at b.created_at then a ∷ b ∷ bs else b ∷ insert_by_created a bs

-- ORDER BY created_at ASC
unfoldable pub by_created : List Action → List Action
unfolding insert_by_created
by_created [] = []
by_created (a ∷ as_) = insert_by_created a (by_created as_)

abbrev pub host_of : List Host → Action → Option Host
host_of hosts a = and_then a.host_id (λ id. find_host id hosts)

-- The rows of the tick's SELECT: the oldest 16 pending actions.
unfoldable pub select_pending : State → List Action
unfolding by_created
select_pending s = take 16 (by_created (keep (λ a. has_status a.status pending) s.actions))

-- One row of the tick: whether the tick goes on with the next row, and the state. What the update
-- after a send raises is not caught, and ends the tick with the frame sent and the row unchanged.
unfoldable pub send_frame : World → ℕ → Action → Host → Socket → Option Frame → State → Bool × State
send_frame w now a h ws none s = (true, s)
send_frame w now a h ws (some f) s =
    if w.send ws f
    then (if w.updates a.id
        then (
          true,
          record s {
            actions = (mark_dispatched now a.id s.actions).0;
            sent = s.sent ++ (ws, f) ∷ [];
          },
        )
        else (false, record s { sent = s.sent ++ (ws, f) ∷ [] }))
    else (true, record s { registry = unregister h.id s.registry })

unfoldable pub deliver_to : World → ℕ → Action → Option Host → State → Bool × State
unfolding send_frame connection
deliver_to w now a none s = (true, s)
deliver_to w now a (some h) s =
    if h.auto_block
    then elim (connection h.id s.registry) [
      | none ↦ (true, s)
      | some ws ↦ send_frame w now a h ws (build_command_frame w a h) s
    ]
    else (true, s)

unfoldable pub deliver : World → ℕ → Action → State → Bool × State
unfolding deliver_to
deliver w now a s = deliver_to w now a (host_of s.hosts a) s

unfoldable pub deliver_all : World → ℕ → List Action → State → State
deliver_all w now [] s = s
deliver_all w now (a ∷ rows) s =
    let (goes_on, s') = deliver w now a s in
    let rest = deliver_all w now rows s' in if goes_on then rest else s'

unfoldable pub tick : World → ℕ → State → State
unfolding select_pending deliver_all
tick w now s = deliver_all w now (select_pending s) s
