-- ===== src/Soar/Tests.antt =====
-- The delivery worker on concrete alerts and answers.
use zaqorincore.Prelude.{
  ℕ, ◌≡◌, ◌<◌, refl, true, false, none, some, List, [], ◌∷◌, length, inl, arith, leb, string_eq,
  if◌then◌else◌, String,
}
use zaqorincore.Soar.Config.{BackendConfig, Alert, Outcome}
use zaqorincore.Soar.Queue.{
  alert_of, AlertRow, poll_rows, passes, cooldown_key, Pending, Worker, Disk, put_or_drop,
  is_dead_letter_candidate,
}
use zaqorincore.Soar.Delivery.{raised, Run, returned, run_one}
use zaqorincore.Soar.Retries.{Undisturbed}
use zaqorincore.Soar.Endings.{GivenUp, run_one-exhausted}
use zaqorincore.Soar.Success.{Delivered, run_one-Delivered}
use zaqorincore.Soar.Exceptions.{Forgotten, run_one-Forgotten}
use zaqorincore.Soar.Loop.{while_left, run_one-while_left}
use zaqorincore.Dict.{get}
use zaqorincore.Soar.Config.{severity_meets}
use zaqorincore.Soar.Polled.{poll_rows-newest}
use zaqorincore.Soar.Overflow.{put_or_drop-loses}

abbrev config : BackendConfig
config = record {
  enabled = true;
  cooldown_sec = 60;
  severity_min = "low";
  tags_filter = [];
  max_retries = 1;
}

abbrev alert : Alert
alert = record {
  id = "a-1";
  host_id = "h";
  detector = "d";
  severity = "high";
  tags = [];
  summary = "s";
  evidence = none;
  metadata = [];
}

abbrev item_for : String → Pending
item_for name = record {
  alert = alert;
  backend_name = name;
  config = config;
  attempt = 1;
  next_eligible_at = 0;
}

abbrev worker : List Pending → Worker
worker queue = record {
  backends = ("slack", config) ∷ [];
  queue_max = 1;
  queue = queue;
  unfinished = length queue;
  cooldowns = [];
  enqueued = [];
  finished = [];
  deliveries = [];
  dead_letters = [];
}

abbrev disk : Disk
disk = record { stamp = λ t. "t"; can_write = true }

abbrev answer : ℕ → Outcome
answer code = record {
  backend = "slack";
  alert_id = "a-1";
  status_code = code;
  attempted_at = 5;
  duration_ms = 1;
  error = none;
  dead_lettered = false;
  payload_sha256 = "";
}

abbrev run_of : (ℕ → ℕ) → Run
run_of codes = record {
  stopped = λ k. false;
  stopped_waiting = λ k. false;
  begins = λ k. k;
  ends = λ k. k;
  reply = λ k. returned (answer (codes k));
  inserts = λ k. true;
  is_uuid = λ t. true;
}

abbrev calm : {codes : ℕ → ℕ} → Undisturbed (run_of codes)
calm = record { not_stopped = λ k. refl; not_stopped_waiting = λ k. refl; inserted = λ k. refl }

run_one-exhausted_example :
    GivenUp disk
      (item_for "slack")
      (answer 503)
      2
      2
      (worker [])
      (run_one disk (run_of (λ k. 503)) (item_for "slack") (worker []))
run_one-exhausted_example =
    run_one-exhausted disk (run_of (λ k. 503)) calm (item_for "slack") (worker []) (answer 503) refl
      (λ j lo hi. (answer 503, refl, (refl, inl (omega arith)))) refl (refl, inl (omega arith)) refl

abbrev recovers : ℕ → ℕ
recovers k = if leb k 1 then 503 else 204

recovers_before : (j : ℕ) → j < 2 → recovers j ≡ 503
recovers_before j lt = ground arith

run_one-Delivered_example :
    Delivered
      (item_for "slack")
      2
      2
      (worker [])
      (run_one disk (run_of recovers) (item_for "slack") (worker []))
run_one-Delivered_example =
    run_one-Delivered disk (run_of recovers) calm (item_for "slack") (worker []) (answer 204) 2 refl
      (omega arith) (omega arith)
      (λ j lo hi. (answer 503, rw (recovers_before j hi) refl, (refl, inl (omega arith)))) refl
      (record { accepted = refl; from_200 = omega arith; below_400 = omega arith })

abbrev row : AlertRow
row = record {
  id = "a-2";
  host_id = none;
  detector = "d";
  severity = "high";
  summary = "s";
  tags = none;
  evidence = none;
  metadata = none;
}

abbrev full : Worker
full = worker (item_for "slack" ∷ [])

poll_rows-newest_example :
    (poll_rows disk 70000 ("jira" ∷ "slack" ∷ []) (row ∷ row ∷ []) full).queue
    ≡ record (item_for "slack") { alert = alert_of row; next_eligible_at = 70000 } ∷ []
unfolding passes cooldown_key alert_of severity_meets get
poll_rows-newest_example =
    poll_rows-newest disk 70000 1 (omega arith) ("jira" ∷ "slack" ∷ []) (row ∷ row ∷ []) full refl
      (omega arith)

put_or_drop-loses_example :
    ((put_or_drop disk 9 (item_for "jira") (worker (item_for "slack" ∷ []))).queue
      ≡ item_for "jira" ∷ [])
    × ((put_or_drop disk 9 (item_for "jira") (worker (item_for "slack" ∷ []))).dead_letters ≡ [])
put_or_drop-loses_example =
    put_or_drop-loses disk 9 (item_for "jira") (item_for "slack") []
      (worker (item_for "slack" ∷ [])) refl refl (omega arith)

candidate : is_dead_letter_candidate (answer 503) 2 config ≡ true
unfolding is_dead_letter_candidate
candidate = refl

abbrev crashing : Run
crashing = record (run_of recovers) { reply = λ k. raised "OSError: refused" }

run_one-Forgotten_example :
    Forgotten (item_for "slack") (worker []) (run_one disk crashing (item_for "slack") (worker []))
run_one-Forgotten_example =
    run_one-Forgotten disk crashing (item_for "slack") (worker []) "OSError: refused"
      (record { not_stopped = λ k. refl; not_stopped_waiting = λ k. refl; inserted = λ k. refl })
      refl (omega arith) refl

run_one-while_left_example :
    while_left disk (run_of recovers) 9 1 (item_for "slack") (worker [])
    ≡ some (run_one disk (run_of recovers) (item_for "slack") (worker []))
run_one-while_left_example =
    run_one-while_left disk (run_of recovers) 9 (item_for "slack") (worker []) (omega arith)
