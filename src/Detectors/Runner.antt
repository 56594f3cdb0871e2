-- ===== src/Detectors/Runner.antt =====
-- detectors/runner.py and detectors/alert_service.py: one message of the event stream through all
-- detectors, to the rows of alerts and actions. A detector is a function on the state of Redis.
use zaqorincore.Prelude.{
  ℕ, zero, suc, ◌+◌, String, Bool, true, false, not, Option, none, some, List, [], ◌∷◌, ◌++◌,
  is_empty, nat_beq, if◌then◌else◌, string_eq, Result, ok, err, ◌>>=◌,
}
use zaqorincore.Dict.{Dict, get, put}
use zaqorincore.Actions.Store.{Action, write_action}

-- ParsedEvent
pub record ParsedEvent : Type 0 where
  pub event_id : ℕ
  pub host_id : ℕ
  pub source : String
  pub raw : String
  pub metadata : Dict String String
  pub occurred_at : ℕ

-- A value of the detail of an alert.
pub data Detail : Type 0 where
  text : String → Detail
  number : ℕ → Detail
  texts : List String → Detail

-- DetectionAction
pub record Draft : Type 0 where
  pub kind : String
  pub target : String
  pub ttl_sec : Option ℕ

-- DetectionResult
pub record Finding : Type 0 where
  pub detector : String
  pub severity : String
  pub summary : String
  pub detail : Dict String Detail
  pub dedup_key : String
  pub cooldown_sec : ℕ
  pub action : Option Draft

pub record Alert : Type 0 where
  pub id : ℕ
  pub host_id : ℕ
  pub detector : String
  pub severity : String
  pub summary : String
  pub detail : Dict String Detail
  pub created_at : ℕ

-- What a call of a detector within its five seconds gives.
pub data Answer : Type 0 where
  results : List Finding → Answer
  timed_out : Answer
  raised : Answer

abbrev pub Detector : Type 0 → Type 0
Detector R = ParsedEvent → R → R × Answer

-- What the database and the clock do at the n-th statement: whether it is committed, the fresh UUID
-- and the time; and what the table of events has under an id, where `err` is a lost database.
pub record Database : Type 0 where
  pub commits : ℕ → Bool
  pub uuid : ℕ → ℕ
  pub now : ℕ → ℕ
  pub payload : ℕ → Result (Unit {0}) (Option (String × Dict String String))

-- The rows, the number of statements so far, what the detectors keep in Redis, and the messages that
-- are acknowledged.
pub record Tables (R : Type 0) : Type 0 where
  pub alerts : List Alert
  pub actions : List Action
  pub statements : ℕ
  pub redis : R
  pub acked : List String

-- What makes a field unreadable: a KeyError or ValueError, or what is not caught.
pub data Fault : Type 0 where
  refused : Fault
  crashed : Fault

-- How a message ends, returned or raised, and the tables at that moment: rows that are committed stay
-- when something later raises.
abbrev pub Ended : Type 0 → Type 0
Ended R = Result Fault (Unit {0}) × Tables R

-- `uuid.UUID`, and `datetime.fromtimestamp` after `int`
pub record Reader : Type 0 where
  pub uuid_of : String → Option ℕ
  pub moment_of : String → Result Fault ℕ
  -- whether Redis takes the XACK
  pub takes_ack : Bool

abbrev pub or_refused : {A : Type 0} → Option A → Result Fault A
or_refused none = err refused
or_refused (some a) = ok a

abbrev pub or_blank : Option String → String
or_blank none = ""
or_blank (some s) = s

unfoldable pub fields_of : Reader → Dict String String → Result Fault ParsedEvent
unfolding get
fields_of rd fields = do
  event_text ← or_refused (get "event_id" fields)
  event_id ← or_refused (rd.uuid_of event_text)
  host_text ← or_refused (get "host_id" fields)
  host_id ← or_refused (rd.uuid_of host_text)
  time_text ← or_refused (get "occurred_at_unix" fields)
  occurred_at ← rd.moment_of time_text
  ok (record {
    event_id = event_id;
    host_id = host_id;
    source = or_blank (get "source" fields);
    raw = "";
    metadata = [];
    occurred_at = occurred_at;
  })

abbrev pub or_none : Result Fault ParsedEvent → Result Fault (Option ParsedEvent)
or_none (err refused) = ok none
or_none (err crashed) = err crashed
or_none (ok ev) = ok (some ev)

-- `_parse_event`
unfoldable pub parse_event : Reader → Dict String String → Result Fault (Option ParsedEvent)
unfolding fields_of
parse_event rd fields = or_none (fields_of rd fields)

-- s[:n]
abbrev pub take_text : ℕ → String → String
take_text zero s = String.[]
take_text (suc n) String.[] = String.[]
take_text (suc n) (String.◌∷◌ c s) = String.◌∷◌ c (take_text n s)

unfoldable pub enriched : Finding → Dict String Detail
unfolding put
enriched f =
    let keyed =
      if is_empty f.dedup_key then f.detail else put "dedup_key" (text f.dedup_key) f.detail in
    if nat_beq f.cooldown_sec 0 then keyed else put "cooldown_sec" (number f.cooldown_sec) keyed

unfoldable pub alert_of : ℕ → ℕ → ℕ → Finding → Alert
unfolding enriched
alert_of id now host f = record {
  id = id;
  host_id = host;
  detector = f.detector;
  severity = f.severity;
  summary = take_text 512 f.summary;
  detail = enriched f;
  created_at = now;
}

abbrev pub draft_action : ℕ → ℕ → ℕ → ℕ → Option Draft → List Action → List Action
draft_action id now host alert none rows = rows
draft_action id now host alert (some d) rows =
    write_action id now host (some alert) d.kind d.target d.ttl_sec rows

abbrev pub has_draft : Option Draft → Bool
has_draft none = false
has_draft (some d) = true

abbrev pub with_payload : ParsedEvent → String × Dict String String → ParsedEvent
with_payload ev (raw, metadata) = record ev { raw = raw; metadata = metadata }

module _ {R : Type 0} (db : Database) where
  -- `write_action` for the draft of a finding, where a failure is logged and passed over.
  unfoldable pub write_draft : ℕ → ℕ → Option Draft → Tables R → Tables R
  write_draft host alert draft s = if not (has_draft draft) then s else record s {
    statements = s.statements + 1;
    actions =
        if db.commits s.statements
        then draft_action (db.uuid s.statements) (db.now s.statements) host alert draft s.actions
        else s.actions;
  }

  -- `write_alert` and the action, for one finding.
  unfoldable pub write_finding : ℕ → Finding → Tables R → Tables R
  write_finding host f s =
      let id = db.uuid s.statements in
      let counted = record s { statements = s.statements + 1 } in
      if db.commits s.statements
      then write_draft host id f.action
          (record counted { alerts = s.alerts ++ alert_of id (db.now s.statements) host f ∷ [] })
      else counted

  unfoldable pub write_findings : ℕ → List Finding → Tables R → Tables R
  write_findings host [] s = s
  write_findings host (f ∷ fs) s = write_findings host fs (write_finding host f s)

  abbrev pub on_answer : ℕ → Answer → Tables R → Tables R
  on_answer host (results fs) s = write_findings host fs s
  on_answer host timed_out s = s
  on_answer host raised s = s

  -- The loop over the detectors.
  unfoldable pub run_detectors : List (Detector R) → ParsedEvent → Tables R → Tables R
  run_detectors [] ev s = s
  run_detectors (detect ∷ ds) ev s =
      let (redis, answer) = detect ev s.redis in
      run_detectors ds ev (on_answer ev.host_id answer (record s { redis = redis }))

  unfoldable pub acknowledge : Reader → String → Tables R → Ended R
  acknowledge rd msg s =
      if rd.takes_ack then (ok tt, record s { acked = s.acked ++ msg ∷ [] }) else (err crashed, s)

  abbrev pub on_payload :
      Reader
      → String
      → List (Detector R)
      → ParsedEvent
      → Result (Unit {0}) (Option (String × Dict String String))
      → Tables R
      → Ended R
  on_payload rd msg ds ev (err lost) s = (err crashed, s)
  on_payload rd msg ds ev (ok none) s = acknowledge rd msg s
  on_payload rd msg ds ev (ok (some payload)) s =
      acknowledge rd msg (run_detectors ds (with_payload ev payload) s)

  abbrev pub on_parsed :
      Reader → String → List (Detector R) → Result Fault (Option ParsedEvent) → Tables R → Ended R
  on_parsed rd msg ds (err fault) s = (err fault, s)
  on_parsed rd msg ds (ok none) s = acknowledge rd msg s
  on_parsed rd msg ds (ok (some ev)) s = on_payload rd msg ds ev (db.payload ev.event_id) s

  -- `_process_one`
  unfoldable pub process_one :
      Reader → String → Dict String String → List (Detector R) → Tables R → Ended R
  process_one rd msg fields ds s = on_parsed rd msg ds (parse_event rd fields) s
