-- ===== src/Sigma/Runner.antt =====
-- rule_engine/runner.py: the window and the cooldown of a rule, and what a fire leaves in the database.
use zaqorincore.Prelude.{
  ◌+◌, ◌-◌, ◌*◌, max, ℕ, String, Bool, true, false, Option, none, some, List, [], ◌∷◌, ◌++◌, ltb,
  if◌then◌else◌, string_eq, ◌==◌, append, is_empty, Result, ok, err,
}
use zaqorincore.Prelude.Int.{ℤ, pos, negsuc}
use zaqorincore.Sigma.Values.{Event, Engine, Raised}
use zaqorincore.Sigma.Rule.{Rule, Rendered, matches, render_dedup_key, render_action}

-- The calls of the Redis client, on a state of its own.
pub record Redis (S : Type 0) : Type 0 where
  pub zremrangebyscore : String → ℕ → ℤ → S → S
  pub zcard : String → S → ℕ
  pub zadd : String → String → ℕ → S → S
  pub expire : String → ℕ → S → S
  pub exists : String → S → Bool
  pub set_ex : String → String → ℕ → S → S

pub record Fire : Type 0 where
  pub rule : Rule
  pub event : Event
  pub dedup_key : String
  pub count : ℕ
  pub rendered_action : Option Rendered

abbrev pub minus : ℕ → ℕ → ℤ
minus a b = if ltb a b then negsuc (b - a - 1) else pos (a - b)

unfoldable pub events_key : String → String → String
unfolding append
events_key rule_id dedup = append "zaqorin:rule:" (append rule_id (append ":events:" dedup))

unfoldable pub cooldown_key : String → String → String
unfolding append
cooldown_key rule_id dedup = append "zaqorin:rule:" (append rule_id (append ":cooldown:" dedup))

abbrev or_rule_id : Rule → String → String
or_rule_id rule s = if is_empty s then rule.id else s

-- render_dedup_key(event) or rule.id
abbrev pub dedup_of : Rule → Event → String
dedup_of rule ev = or_rule_id rule (render_dedup_key rule ev)

module _ {S : Type 0} (redis : Redis S) (en : Engine) where
  -- The part of `_count_in_window` that changes the state.
  unfoldable pub drop_old : Rule → String → ℕ → S → S
  unfolding events_key
  drop_old rule dedup now s =
      redis.zremrangebyscore (events_key rule.id dedup) 0 (minus now rule.timeframe_sec) s

  unfoldable pub count_in_window : Rule → String → ℕ → S → ℕ
  unfolding events_key drop_old
  count_in_window rule dedup now s =
      redis.zcard (events_key rule.id dedup) (drop_old rule dedup now s)

  unfoldable pub record_event : Rule → String → ℕ → String → S → S
  unfolding events_key
  record_event rule dedup now event_id s =
      redis.expire (events_key rule.id dedup) (max (rule.timeframe_sec * 10) 60)
        (redis.zadd (events_key rule.id dedup) event_id now s)

  unfoldable pub is_in_cooldown : Rule → String → S → Bool
  unfolding cooldown_key
  is_in_cooldown rule dedup s = redis.exists (cooldown_key rule.id dedup) s

  unfoldable pub set_cooldown : Rule → String → S → S
  unfolding cooldown_key
  set_cooldown rule dedup s = redis.set_ex (cooldown_key rule.id dedup) "1" rule.cooldown_sec s

  abbrev pub fire_of : Rule → Event → String → ℕ → Fire
  fire_of rule ev dedup count = record {
    rule = rule;
    event = ev;
    dedup_key = dedup;
    count = count;
    rendered_action = render_action rule ev;
  }

  -- A rule that matches, under its deduplication key.
  unfoldable pub evaluate_matched : Rule → Event → String → ℕ → S → S × List Fire
  unfolding is_in_cooldown count_in_window drop_old record_event set_cooldown render_action
  evaluate_matched rule ev dedup now s =
      let count = count_in_window rule dedup now s + 1 in
      let s' = record_event rule dedup now ev.event_id (drop_old rule dedup now s) in
      if is_in_cooldown rule dedup s
      then (s, [])
      else if ltb count rule.count
      then (s', [])
      else (set_cooldown rule dedup s', fire_of rule ev dedup count ∷ [])

  -- One rule of the loop.
  unfoldable pub evaluate_rule : Rule → Event → ℕ → S → S × Result Raised (List Fire)
  unfolding matches render_dedup_key evaluate_matched
  evaluate_rule rule ev now s = elim (matches en rule ev) [
    | err e ↦ (s, err e)
    | ok false ↦ (s, ok [])
    | ok true ↦
        (let (s', fires) = evaluate_matched rule ev (dedup_of rule ev) now s in (s', ok fires))
  ]

  -- `fires` are those of the rules before.
  unfoldable pub evaluate_rules :
      List Rule → Event → ℕ → S → List Fire → S × Result Raised (List Fire)
  unfolding evaluate_rule
  evaluate_rules [] ev now s fires = (s, ok fires)
  evaluate_rules (rule ∷ rules) ev now s fires =
      let (s', r) = evaluate_rule rule ev now s in
      elim r [ err e ↦ (s', err e) | ok more ↦ evaluate_rules rules ev now s' (fires ++ more) ]

  -- `evaluate`, at the clock's time
  unfoldable pub evaluate : List Rule → Event → ℕ → S → S × Result Raised (List Fire)
  unfolding evaluate_rules
  evaluate rules ev now s = evaluate_rules rules ev now s []

pub record AlertRow : Type 0 where
  pub id : String
  pub host_id : String
  pub detector : String
  pub summary : String
  pub severity : String
  pub count : ℕ
  pub dedup_key : String
  pub event_id : String

pub record ActionRow : Type 0 where
  pub id : String
  pub host_id : String
  pub alert_id : String
  pub kind : String
  pub target : String
  pub ttl_sec : Option ℤ
  pub status : String

-- The rows of the session; of the alert's detail, what the rule's own title and level do not repeat.
pub record Session : Type 0 where
  pub alerts : List AlertRow
  pub actions : List ActionRow

abbrev action_rows : Fire → String → String → Option Rendered → List ActionRow
action_rows fire alert_id action_id none = []
action_rows fire alert_id action_id (some r) =
    record {
      id = action_id;
      host_id = fire.event.host_id;
      alert_id = alert_id;
      kind = r.kind;
      target = r.target;
      ttl_sec = r.ttl_sec;
      status = "pending";
    }
    ∷ []

-- `alert_id` and `action_id` are the fresh UUIDs.
unfoldable pub persist_fire : String → String → Fire → String → Session → Session
persist_fire alert_id action_id fire mode s = if mode == "hunt" then s else record {
  alerts =
      s.alerts
      ++ record {
        id = alert_id;
        host_id = fire.event.host_id;
        detector = fire.rule.id;
        summary = fire.rule.title;
        severity = fire.rule.level;
        count = fire.count;
        dedup_key = fire.dedup_key;
        event_id = fire.event.event_id;
      }
        ∷ [];
  actions = s.actions ++ action_rows fire alert_id action_id fire.rendered_action;
}
