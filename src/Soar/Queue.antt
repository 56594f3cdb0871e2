-- ===== src/Soar/Queue.antt =====
-- soar/worker.py: from a row of the alerts table to the queue of deliveries, and the dead letters.
use zaqorincore.Prelude.{
  ℕ, ◌+◌, ◌-◌, ◌*◌, String, Bool, true, false, not, ◌&&◌, ◌||◌, Option, none, some, List, [], ◌∷◌,
  ◌++◌, length, any, contains, append, without_char, take_text, is_empty, ltb, leb, nat_beq,
  if◌then◌else◌, string_eq, pair_eq,
}
use zaqorincore.Dict.{Dict, get, put}
use zaqorincore.Soar.Config.{BackendConfig, Alert, Outcome, severity_meets}

-- _PendingDelivery
pub record Pending : Type 0 where
  pub alert : Alert
  pub backend_name : String
  pub config : BackendConfig
  pub attempt : ℕ
  pub next_eligible_at : ℕ

-- One row of soar_deliveries.
pub record Delivery : Type 0 where
  pub alert_id : Option String
  pub backend : String
  pub status_code : ℕ
  pub attempt : ℕ
  pub dead_lettered : Bool

-- The body of a dead-letter file.
pub record DeadLetter : Type 0 where
  pub ts : ℕ
  pub backend : String
  pub alert : Alert
  pub status_code : ℕ
  pub error : Option String
  pub attempt : ℕ
  pub payload_sha256 : String

abbrev pub CooldownKey : Type 0
CooldownKey = String × (String × String)

-- `unfinished` counts the queue items without a `task_done()`.
pub record Worker : Type 0 where
  pub backends : Dict String BackendConfig
  pub queue_max : ℕ
  pub queue : List Pending
  pub unfinished : ℕ
  pub cooldowns : Dict CooldownKey ℕ
  pub enqueued : List String
  pub finished : List (String × String)
  pub deliveries : List Delivery
  pub dead_letters : Dict String DeadLetter

-- A row of the alerts table; what of its `detail` has the wrong type counts as missing, and the
-- tags and metadata are texts.
pub record AlertRow : Type 0 where
  pub id : String
  pub host_id : Option String
  pub detector : String
  pub severity : String
  pub summary : String
  pub tags : Option (List String)
  pub evidence : Option String
  pub metadata : Option (Dict String String)

abbrev or_empty : Option String → String
or_empty none = ""
or_empty (some s) = s

abbrev or_no_items : {A : Type 0} → Option (List A) → List A
or_no_items none = []
or_no_items (some xs) = xs

unfoldable pub alert_of : AlertRow → Alert
alert_of row = record {
  id = row.id;
  host_id = or_empty row.host_id;
  detector = row.detector;
  severity = row.severity;
  tags = or_no_items row.tags;
  summary = row.summary;
  evidence = row.evidence;
  metadata = or_no_items row.metadata;
}

-- The file system, as far as dead letters go: the text of a time in file names, and whether the
-- directory can be made and written.
pub record Disk : Type 0 where
  pub stamp : ℕ → String
  pub can_write : Bool

unfoldable pub is_dead_letter_candidate : Outcome → ℕ → BackendConfig → Bool
is_dead_letter_candidate o attempt cfg =
    (o.dead_lettered && (leb 400 o.status_code && ltb o.status_code 500))
    || (ltb cfg.max_retries attempt && leb 500 o.status_code)
    || (ltb cfg.max_retries attempt && nat_beq o.status_code 0)

abbrev or_alert : String → String
or_alert s = if is_empty s then "alert" else s

unfoldable pub dead_letter_name : Disk → ℕ → String → String
unfolding append without_char take_text
dead_letter_name d at alert_id =
    append (d.stamp at)
      (append "-" (append (or_alert (take_text 8 (without_char b'-' alert_id))) ".json"))

unfoldable pub dead_letter_body : Pending → Outcome → ℕ → DeadLetter
dead_letter_body item o attempt = record {
  ts = o.attempted_at;
  backend = item.backend_name;
  alert = item.alert;
  status_code = o.status_code;
  error = o.error;
  attempt = attempt;
  payload_sha256 = o.payload_sha256;
}

-- A file of the same name is replaced.
unfoldable pub maybe_dead_letter : Disk → Pending → Outcome → ℕ → Worker → Worker
maybe_dead_letter d item o attempt s =
    if is_dead_letter_candidate o attempt item.config && d.can_write
    then record s {
      dead_letters =
          put (dead_letter_name d o.attempted_at item.alert.id) (dead_letter_body item o attempt)
            s.dead_letters;
    }
    else s

unfoldable pub queue_full_outcome : ℕ → Pending → Outcome
queue_full_outcome now item = record {
  backend = item.backend_name;
  alert_id = item.alert.id;
  status_code = 0;
  attempted_at = now;
  duration_ms = 0;
  error = some "queue full";
  dead_lettered = true;
  payload_sha256 = "";
}

unfoldable pub dead_letter_queue_full : Disk → ℕ → Pending → Worker → Worker
unfolding maybe_dead_letter queue_full_outcome
dead_letter_queue_full d now item s =
    maybe_dead_letter d item (queue_full_outcome now item) item.attempt s

-- `asyncio.Queue.full`: a maximum of 0 is no maximum.
unfoldable pub is_full : Worker → Bool
is_full s = ltb 0 s.queue_max && leb s.queue_max (length s.queue)

-- put_nowait, where the queue is not full
unfoldable pub push : Pending → Worker → Worker
push item s = record s { queue = s.queue ++ item ∷ []; unfinished = s.unfinished + 1 }

-- get_nowait, task_done and the dead letter of the oldest item
unfoldable pub drop_oldest : Disk → ℕ → List Pending → Worker → Worker
unfolding dead_letter_queue_full
drop_oldest d now [] s = s
drop_oldest d now (oldest ∷ rest) s =
    dead_letter_queue_full d now oldest (record s { queue = rest; unfinished = s.unfinished - 1 })

unfoldable pub put_or_drop : Disk → ℕ → Pending → Worker → Worker
unfolding drop_oldest dead_letter_queue_full is_full push
put_or_drop d now item s =
    if is_full s
    then (let s' = drop_oldest d now s.queue s in
        if is_full s' then dead_letter_queue_full d now item s' else push item s')
    else push item s

abbrev no_filter : List String → Bool
no_filter [] = true
no_filter (t ∷ ts) = false

-- `self._cooldowns.get(key, 0.0)`
abbrev or_start : Option ℕ → ℕ
or_start none = 0
or_start (some t) = t

-- `set.add`
abbrev pub add_once : String → List String → List String
add_once x xs = if contains x xs then xs else x ∷ xs

-- The filter chain of one backend.
unfoldable pub passes : BackendConfig → Alert → Option ℕ → ℕ → Bool
unfolding severity_meets
passes cfg alert last now =
    cfg.enabled
    && severity_meets alert.severity cfg.severity_min
    && (no_filter cfg.tags_filter || any (λ t. contains t alert.tags) cfg.tags_filter)
    && not (ltb now (or_start last + cfg.cooldown_sec * 1000))

unfoldable pub cooldown_key : String → Alert → CooldownKey
cooldown_key name alert = (name, (alert.host_id, alert.detector))

-- One backend of `_enqueue_row`'s loop.
unfoldable pub enqueue_configured :
    Disk → ℕ → Alert → String → Option BackendConfig → Worker → Worker
unfolding passes cooldown_key put_or_drop
enqueue_configured d now alert name none s = s
enqueue_configured d now alert name (some cfg) s =
    if passes cfg alert (get (cooldown_key name alert) s.cooldowns) now
    then put_or_drop d now
        (record {
          alert = alert;
          backend_name = name;
          config = cfg;
          attempt = 1;
          next_eligible_at = now;
        })
        (record s { enqueued = add_once alert.id s.enqueued })
    else s

unfoldable pub enqueue_for : Disk → ℕ → Alert → String → Worker → Worker
unfolding enqueue_configured
enqueue_for d now alert name s = enqueue_configured d now alert name (get name s.backends) s

unfoldable pub enqueue_each : Disk → ℕ → Alert → List String → Worker → Worker
enqueue_each d now alert [] s = s
enqueue_each d now alert (name ∷ names) s =
    enqueue_each d now alert names (enqueue_for d now alert name s)

-- `registry` is `get_backends()`.
unfoldable pub enqueue_row : Disk → ℕ → List String → AlertRow → Worker → Worker
unfolding alert_of enqueue_each
enqueue_row d now registry row s =
    if contains row.id s.enqueued then s else enqueue_each d now (alert_of row) registry s

-- The rows that `_poll_once` has read.
unfoldable pub poll_rows : Disk → ℕ → List String → List AlertRow → Worker → Worker
poll_rows d now registry [] s = s
poll_rows d now registry (row ∷ rows) s =
    poll_rows d now registry rows (enqueue_row d now registry row s)
