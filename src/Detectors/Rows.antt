-- ===== src/Detectors/Rows.antt =====
-- What detectors/runner.py leaves of a message: its rows and its acknowledgement.
use zaqorincore.Prelude.{
  ℕ, ◌+◌, String, Option, none, some, List, [], ◌∷◌, ◌++◌, All, All-append, In, In-append_left,
  In-append_last, Result, ok, err, ◌≡◌, refl, inl, inr, Bool-cases,
}
use zaqorincore.Dict.{Dict}
use zaqorincore.Actions.Store.{Action, write_action}
use zaqorincore.Detectors.Runner.{
  ParsedEvent, Draft, Finding, Alert, Answer, results, timed_out, raised, Detector, Database,
  Tables, Fault, Reader, parse_event, alert_of, draft_action, write_draft, write_finding,
  write_findings, on_answer, run_detectors, acknowledge, with_payload, on_payload, on_parsed,
  process_one,
}

-- An action that names an alert names one of the table's, of the same host.
pub data IsLinked (alerts : List Alert) (a : Action) : Type 0 where
  unnamed : a.alert_id ≡ none → IsLinked alerts a
  named :
      (alert : Alert)
      → In alert alerts
      → a.alert_id ≡ some alert.id
      → a.host_id ≡ some alert.host_id
      → IsLinked alerts a

-- What every step of the runner keeps of the rows.
abbrev pub AreLinked : {R : Type 0} → Tables R → Type 0
AreLinked s = All (IsLinked s.alerts) s.actions

IsLinked-append :
    (alerts more : List Alert) (a : Action) → IsLinked alerts a → IsLinked (alerts ++ more) a
IsLinked-append alerts more a (unnamed e) = unnamed e
IsLinked-append alerts more a (named alert m e h) =
    named alert (In-append_left alert alerts more m) e h

All-IsLinked :
    (alerts more : List Alert) (rows : List Action)
    → All (IsLinked alerts) rows
    → All (IsLinked (alerts ++ more)) rows
All-IsLinked alerts more [] h = tt
All-IsLinked alerts more (a ∷ rows) h =
    (IsLinked-append alerts more a h.0, All-IsLinked alerts more rows h.1)

draft_action-AreLinked :
    (id now : ℕ) (alert : Alert) (draft : Option Draft) (alerts : List Alert) (rows : List Action)
    → In alert alerts
    → All (IsLinked alerts) rows
    → All (IsLinked alerts) (draft_action id now alert.host_id alert.id draft rows)
draft_action-AreLinked id now alert none alerts rows m h = h
draft_action-AreLinked id now alert (some d) alerts rows m h =
    unfold write_action in All-append (IsLinked alerts) rows _ h (named alert m refl refl, tt)

module _ {R : Type 0} (db : Database) where
  write_draft-AreLinked :
      (alert : Alert) (draft : Option Draft) (s : Tables R)
      → In alert s.alerts
      → AreLinked s
      → AreLinked (write_draft db alert.host_id alert.id draft s)
  unfolding write_draft
  write_draft-AreLinked alert none s m h = h
  write_draft-AreLinked alert (some d) s m h = elim (Bool-cases (db.commits s.statements)) [
    | inl e ↦ rw e (
        draft_action-AreLinked (db.uuid s.statements) (db.now s.statements) alert (some d) s.alerts
          s.actions m h)
    | inr e ↦ rw e h
  ]

  write_finding-AreLinked :
      (host : ℕ) (f : Finding) (s : Tables R) → AreLinked s → AreLinked (write_finding db host f s)
  unfolding write_finding alert_of
  write_finding-AreLinked host f s h =
      let alert = alert_of (db.uuid s.statements) (db.now s.statements) host f in
      elim (Bool-cases (db.commits s.statements)) [
        | inl e ↦ rw e (
            write_draft-AreLinked alert f.action
              (record s { statements = s.statements + 1; alerts = s.alerts ++ alert ∷ [] })
              (In-append_last alert s.alerts) (All-IsLinked s.alerts (alert ∷ []) s.actions h))
        | inr e ↦ rw e h
      ]

  write_findings-AreLinked :
      (host : ℕ) (fs : List Finding) (s : Tables R)
      → AreLinked s
      → AreLinked (write_findings db host fs s)
  unfolding write_findings
  write_findings-AreLinked host [] s h = h
  write_findings-AreLinked host (f ∷ fs) s h =
      write_findings-AreLinked host fs (write_finding db host f s)
        (write_finding-AreLinked host f s h)

  on_answer-AreLinked :
      (host : ℕ) (answer : Answer) (s : Tables R)
      → AreLinked s
      → AreLinked (on_answer db host answer s)
  on_answer-AreLinked host (results fs) s h = write_findings-AreLinked host fs s h
  on_answer-AreLinked host timed_out s h = h
  on_answer-AreLinked host raised s h = h

  run_detectors-AreLinked :
      (ds : List (Detector R)) (ev : ParsedEvent) (s : Tables R)
      → AreLinked s
      → AreLinked (run_detectors db ds ev s)
  unfolding run_detectors
  run_detectors-AreLinked [] ev s h = h
  run_detectors-AreLinked (detect ∷ ds) ev s h = run_detectors-AreLinked ds ev _ (
      on_answer-AreLinked ev.host_id (detect ev s.redis).1
        (record s { redis = (detect ev s.redis).0 }) h)

  module _ (rd : Reader) (msg : String) where
    acknowledge-AreLinked : (s : Tables R) → AreLinked s → AreLinked (acknowledge db rd msg s).1
    unfolding acknowledge
    acknowledge-AreLinked s h = elim (Bool-cases rd.takes_ack) [ inl e ↦ rw e h | inr e ↦ rw e h ]

    on_payload-AreLinked :
        (ds : List (Detector R)) (ev : ParsedEvent)
        (payload : Result Unit (Option (String × Dict String String))) (s : Tables R)
        → AreLinked s
        → AreLinked (on_payload db rd msg ds ev payload s).1
    on_payload-AreLinked ds ev (err lost) s h = h
    on_payload-AreLinked ds ev (ok none) s h = acknowledge-AreLinked s h
    on_payload-AreLinked ds ev (ok (some payload)) s h =
        acknowledge-AreLinked (run_detectors db ds (with_payload ev payload) s)
          (run_detectors-AreLinked ds (with_payload ev payload) s h)

    on_parsed-AreLinked :
        (ds : List (Detector R)) (parsed : Result Fault (Option ParsedEvent)) (s : Tables R)
        → AreLinked s
        → AreLinked (on_parsed db rd msg ds parsed s).1
    on_parsed-AreLinked ds (err fault) s h = h
    on_parsed-AreLinked ds (ok none) s h = acknowledge-AreLinked s h
    on_parsed-AreLinked ds (ok (some ev)) s h =
        on_payload-AreLinked ds ev (db.payload ev.event_id) s h

    -- If each action that names an alert names one in the table, of the same host, then this still
    -- holds when `_process_one` ends, whether it returns or raises, whatever the detectors answer and
    -- whichever of its statements fail, the acknowledgement included.
    pub process_one-AreLinked :
        (fields : Dict String String) (ds : List (Detector R)) (s : Tables R)
        → AreLinked s
        → AreLinked (process_one db rd msg fields ds s).1
    unfolding process_one
    process_one-AreLinked fields ds s h = on_parsed-AreLinked ds (parse_event rd fields) s h
