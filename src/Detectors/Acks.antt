-- ===== src/Detectors/Acks.antt =====
-- Which messages detectors/runner.py acknowledges.
use zaqorincore.Prelude.{
  ℕ, String, true, Option, none, some, List, [], ◌∷◌, ◌++◌, Result, ok, err, string_eq, ◌>>=◌, ◌≡◌,
  ◌≢◌, refl, ◌∙◌, ap, Bool-cases, inl, inr,
}
use zaqorincore.Dict.{Dict, get}
use zaqorincore.Detectors.Runner.{
  ParsedEvent, Draft, Finding, Answer, results, timed_out, raised, Detector, Database, Tables,
  Ended, Fault, refused, crashed, Reader, fields_of, or_refused, or_none, parse_event, write_draft,
  write_finding, write_findings, on_answer, run_detectors, acknowledge, with_payload, on_payload,
  on_parsed, process_one,
}

-- Reading a field raises nothing but what is caught.
abbrev IsCaught : {A : Type 0} → Result Fault A → Type 0
IsCaught (err crashed) = ⊥
IsCaught (err refused) = Unit
IsCaught (ok a) = Unit

IsCaught-of : {A : Type 0} (r : Result Fault A) → r ≢ err crashed → IsCaught r
IsCaught-of (err crashed) h = h refl
IsCaught-of (err refused) h = tt
IsCaught-of (ok a) h = tt

then-IsCaught :
    {A B : Type 0} (r : Result Fault A) (next : A → Result Fault B)
    → IsCaught r
    → ((a : A) → IsCaught (next a))
    → IsCaught (r >>= next)
then-IsCaught (err crashed) next h k = h
then-IsCaught (err refused) next h k = tt
then-IsCaught (ok a) next h k = k a

or_refused-IsCaught : {A : Type 0} (o : Option A) → IsCaught (or_refused o)
or_refused-IsCaught none = tt
or_refused-IsCaught (some a) = tt

or_none-IsCaught :
    (r : Result Fault ParsedEvent) → IsCaught r → (fault : Fault) → or_none r ≢ err fault
or_none-IsCaught (err crashed) h fault = absurd h
or_none-IsCaught (err refused) h fault = λ e. cc
or_none-IsCaught (ok ev) h fault = λ e. cc

parse_event-IsCaught :
    (rd : Reader) (fields : Dict String String)
    → ((t : String) → rd.moment_of t ≢ err crashed)
    → (fault : Fault) → parse_event rd fields ≢ err fault
unfolding parse_event fields_of
parse_event-IsCaught rd fields sane fault =
    or_none-IsCaught (fields_of rd fields)
      (then-IsCaught (or_refused (get "event_id" fields)) _
        (or_refused-IsCaught (get "event_id" fields))
        (λ a. then-IsCaught (or_refused (rd.uuid_of a)) _ (or_refused-IsCaught (rd.uuid_of a)) (λ b.
          then-IsCaught (or_refused (get "host_id" fields)) _
            (or_refused-IsCaught (get "host_id" fields))
            (λ c.
              then-IsCaught (or_refused (rd.uuid_of c)) _ (or_refused-IsCaught (rd.uuid_of c)) (λ d.
                then-IsCaught (or_refused (get "occurred_at_unix" fields)) _
                  (or_refused-IsCaught (get "occurred_at_unix" fields))
                  (λ x.
                    then-IsCaught (rd.moment_of x) _ (IsCaught-of (rd.moment_of x) (sane x))
                      (λ y. tt)))))))
      fault

module _ {R : Type 0} (db : Database) where
  write_draft-acked :
      (host alert : ℕ) (draft : Option Draft) (s : Tables R)
      → (write_draft db host alert draft s).acked ≡ s.acked
  unfolding write_draft
  write_draft-acked host alert none s = refl
  write_draft-acked host alert (some d) s = refl

  write_finding-acked :
      (host : ℕ) (f : Finding) (s : Tables R) → (write_finding db host f s).acked ≡ s.acked
  unfolding write_finding
  write_finding-acked host f s = elim (Bool-cases (db.commits s.statements)) [
    | inl e ↦ rw e (write_draft-acked host (db.uuid s.statements) f.action _)
    | inr e ↦ rw e refl
  ]

  write_findings-acked :
      (host : ℕ) (fs : List Finding) (s : Tables R) → (write_findings db host fs s).acked ≡ s.acked
  unfolding write_findings
  write_findings-acked host [] s = refl
  write_findings-acked host (f ∷ fs) s =
      write_findings-acked host fs (write_finding db host f s) ∙ write_finding-acked host f s

  on_answer-acked :
      (host : ℕ) (answer : Answer) (s : Tables R) → (on_answer db host answer s).acked ≡ s.acked
  on_answer-acked host (results fs) s = write_findings-acked host fs s
  on_answer-acked host timed_out s = refl
  on_answer-acked host raised s = refl

  run_detectors-acked :
      (ds : List (Detector R)) (ev : ParsedEvent) (s : Tables R)
      → (run_detectors db ds ev s).acked ≡ s.acked
  unfolding run_detectors
  run_detectors-acked [] ev s = refl
  run_detectors-acked (detect ∷ ds) ev s =
      run_detectors-acked ds ev _
      ∙ on_answer-acked ev.host_id (detect ev s.redis).1
          (record s { redis = (detect ev s.redis).0 })

  -- `_process_one` returned, with the message as the only one acknowledged.
  abbrev pub Acked : String → Tables R → Ended R → Type 0
  Acked msg s end = (end.0 ≡ ok tt) × (end.1.acked ≡ s.acked ++ msg ∷ [])

  module _ (rd : Reader) (msg : String) (takes : rd.takes_ack ≡ true) where
    acknowledge-Acked :
        (before s : Tables R) → s.acked ≡ before.acked → Acked msg before (acknowledge db rd msg s)
    unfolding acknowledge
    acknowledge-Acked before s same = rw takes (refl, ap (λ xs. xs ++ msg ∷ []) same)

    on_payload-Acked :
        (ds : List (Detector R)) (ev : ParsedEvent)
        (payload : Result Unit (Option (String × Dict String String))) (s : Tables R)
        → payload ≢ err tt
        → Acked msg s (on_payload db rd msg ds ev payload s)
    on_payload-Acked ds ev (err lost) s there = absurd (there refl)
    on_payload-Acked ds ev (ok none) s there = acknowledge-Acked s s refl
    on_payload-Acked ds ev (ok (some payload)) s there =
        acknowledge-Acked s _ (run_detectors-acked ds (with_payload ev payload) s)

    on_parsed-Acked :
        (ds : List (Detector R)) (parsed : Result Fault (Option ParsedEvent)) (s : Tables R)
        → ((fault : Fault) → parsed ≢ err fault)
        → ((id : ℕ) → db.payload id ≢ err tt)
        → Acked msg s (on_parsed db rd msg ds parsed s)
    on_parsed-Acked ds (err fault) s sane there = absurd (sane fault refl)
    on_parsed-Acked ds (ok none) s sane there = acknowledge-Acked s s refl
    on_parsed-Acked ds (ok (some ev)) s sane there =
        on_payload-Acked ds ev (db.payload ev.event_id) s (there ev.event_id)

    -- If Redis takes the acknowledgement, the events can be read and no time stamp crashes, then
    -- `_process_one` returns with the message acknowledged, whatever its fields are, whatever the
    -- detectors answer and whichever rows cannot be written.
    pub process_one-Acked :
        (fields : Dict String String) (ds : List (Detector R)) (s : Tables R)
        → ((t : String) → rd.moment_of t ≢ err crashed)
        → ((id : ℕ) → db.payload id ≢ err tt)
        → Acked msg s (process_one db rd msg fields ds s)
    unfolding process_one
    process_one-Acked fields ds s sane there =
        on_parsed-Acked ds (parse_event rd fields) s (parse_event-IsCaught rd fields sane) there
