-- ===== src/Detectors/Tests.antt =====
-- The SSH detector on concrete events, with a small stand-in for Redis.
use zaqorincore.Prelude.{
  ◌≡◌, ◌≢◌, ◌+◌, ℕ, nat_beq, ok, err, refl, true, false, not, some, List, [], ◌∷◌, length, String,
  string_eq, ==_refl, contains,
}
use zaqorincore.Dict.{Dict}
use zaqorincore.Sigma.Values.{Event}
use zaqorincore.Detectors.Ssh.{Redis, Settings, window_key, extract_source_ip, on_event}
use zaqorincore.Detectors.Runner.{
  Finding, results, raised, Detector, Database, Tables, Reader, crashed, parse_event, acknowledge,
  run_detectors, write_findings, write_finding, write_draft, process_one,
}
use zaqorincore.Actions.Store.{write_action}
use zaqorincore.Detectors.Rows.{AreLinked, process_one-AreLinked}
use zaqorincore.Detectors.Acks.{Acked, process_one-Acked}
use zaqorincore.Detectors.SshStorm.{Behaves, key_of}

-- The keys that were set, and one member in each window.
abbrev redis : Redis (List String)
redis = record {
  pipeline = λ k lo m t ttl s. (s, some 1);
  set_nx = λ k ttl s. (k ∷ s, some (not (contains k s)));
}

set_exists : (k : String) (s : List String) → contains k (k ∷ s) ≡ true
set_exists k s = rw (==_refl k) refl

redis-Behaves : Behaves redis
redis-Behaves = record {
  exists = contains;
  set_nx-answer = λ k ttl s. refl;
  set_nx-exists = λ k ttl s. set_exists k s;
  pipeline-exists = λ j k m lo t ttl s differ. refl;
}

abbrev settings : Settings
settings = record { threshold = 1; window_sec = 60; cooldown_sec = 300 }

abbrev event : Event
event = record {
  event_id = "e";
  host_id = "h";
  source = "auth";
  raw = "";
  metadata = ("source_ip", " 10.0.0.9 ") ∷ ("status", "FAILED") ∷ [];
}

event_key : key_of event ≡ window_key "h" "10.0.0.9"
unfolding extract_source_ip
event_key = refl

event_detected : length (on_event redis settings event 100 []).1 ≡ 1
unfolding on_event
event_detected = refl

-- A detector that fails, and one that finds something in every event.
abbrev broken : Detector Unit
broken = λ ev s. (s, raised)

abbrev finding : Finding
finding = record {
  detector = "d";
  severity = "high";
  summary = "s";
  detail = [];
  dedup_key = "k";
  cooldown_sec = 0;
  action = some (record { kind = "block_ip"; target = "10.0.0.9"; ttl_sec = some 60 });
}

abbrev alarm : Detector Unit
alarm = λ ev s. (s, results (finding ∷ finding ∷ []))

-- A database that refuses the third statement.
abbrev database : Database
database = record {
  commits = λ n. not (nat_beq n 2);
  uuid = λ n. n + 100;
  now = λ n. n;
  payload = λ id. ok (some ("raw", []));
}

abbrev reader : Reader
reader = record { uuid_of = λ t. some 7; moment_of = λ t. ok 0; takes_ack = true }

abbrev tables : Tables Unit
tables = record { alerts = []; actions = []; statements = 0; redis = tt; acked = [] }

abbrev fields : Dict String String
fields = ("event_id", "e") ∷ ("host_id", "h") ∷ ("occurred_at_unix", "0") ∷ []

abbrev after_one : Tables Unit
after_one = (process_one database reader "1-0" fields (broken ∷ alarm ∷ []) tables).1

one_row_each : (length after_one.alerts ≡ 1) × (length after_one.actions ≡ 1)
unfolding process_one parse_event acknowledge run_detectors write_findings write_finding write_draft
    write_action
one_row_each = (refl, refl)

-- Redis does not take the acknowledgement.
abbrev mute : Reader
mute = record reader { takes_ack = false }

kept_rows :
    let end = process_one database mute "1-0" fields (broken ∷ alarm ∷ []) tables in
    (end.0 ≡ err crashed) × (length end.1.alerts ≡ 1) × (end.1.acked ≡ [])
unfolding process_one parse_event acknowledge run_detectors write_findings write_finding write_draft
    write_action
kept_rows = (refl, refl, refl)

process_one-AreLinked_example :
    AreLinked (process_one database mute "1-0" fields (broken ∷ alarm ∷ []) tables).1
process_one-AreLinked_example =
    process_one-AreLinked database mute "1-0" fields (broken ∷ alarm ∷ []) tables tt

calm : (t : String) → reader.moment_of t ≢ err crashed
calm t e = cc

there : (id : ℕ) → database.payload id ≢ err tt
there id e = cc

process_one-Acked_example :
    Acked database "1-0" tables
      (process_one database reader "1-0" fields (broken ∷ alarm ∷ []) tables)
process_one-Acked_example =
    process_one-Acked database reader "1-0" refl fields (broken ∷ alarm ∷ []) tables calm there
