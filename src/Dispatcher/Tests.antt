-- ===== src/Dispatcher/Tests.antt =====
-- The dispatcher on a table with one pending action.
use zaqorincore.Prelude.{◌≡◌, refl, true, false, none, some, [], ◌∷◌, All, In, inl, inr, append}
use zaqorincore.Actions.Store.{Action, pending}
use zaqorincore.Dispatcher.{
  World, Host, State, signed_frame, find_host, select_pending, build_command_frame, connection,
  tick,
}
use zaqorincore.Dict.{get}
use zaqorincore.Actions.Kinds.{is_valid_kind}
use zaqorincore.Actions.Targets.{validate_target}
use zaqorincore.Actions.Deployment.{validate_mode_action}
use zaqorincore.Dispatcher.Safety.{Authorized, tick-Authorized}
use zaqorincore.Dispatcher.Progress.{Blocked, Ready, tick-Ready}

abbrev world : World
world = record {
  allow_dangerous = false;
  deployment_mode = "startup";
  uuid_text = λ id. "7";
  issued_at = λ id. "now";
  hmac = append;
  send = λ ws f. true;
  updates = λ id. true;
}

abbrev action : Action
action = record {
  id = 7;
  host_id = some 1;
  alert_id = none;
  kind = "block_ip";
  target = "8.8.4.4";
  ttl_sec = some 60;
  status = pending;
  created_at = 3;
  sent_at = none;
  acked_at = none;
}

abbrev willing : Host
willing = record { id = 1; secret = some "s"; auto_block = true }

abbrev unwilling : Host
unwilling = record { id = 1; secret = some "s"; auto_block = false }

abbrev state_of : Host → State
state_of h = record { actions = action ∷ []; hosts = h ∷ []; registry = (1, 40) ∷ []; sent = [] }

built : build_command_frame world action willing ≡ some (signed_frame world action "s")
unfolding build_command_frame is_valid_kind validate_target validate_mode_action
built = refl

selected : (h : Host) → select_pending (state_of h) ≡ action ∷ []
unfolding select_pending
selected h = refl

action-Ready : Ready world (state_of willing) action (40, signed_frame world action "s")
unfolding find_host connection get
action-Ready = record {
  host = willing;
  its_host = refl;
  opted_in = refl;
  connected = refl;
  built = built;
}

action-Blocked : All (Blocked world (state_of unwilling)) (select_pending (state_of unwilling))
unfolding select_pending find_host
action-Blocked = (inr (unwilling, refl, inl refl), tt)

action-In : In action (select_pending (state_of willing))
unfolding select_pending
action-In = inl refl

tick-Authorized_example :
    All (Authorized world (state_of willing)) (tick world 9 (state_of willing)).sent
tick-Authorized_example = tick-Authorized world 9 (state_of willing) refl

tick-Ready_example : In (40, signed_frame world action "s") (tick world 9 (state_of willing)).sent
tick-Ready_example =
    tick-Ready world 9 (λ ws f. refl) (λ id. refl) action (state_of willing)
      (40, signed_frame world action "s") action-In action-Ready
