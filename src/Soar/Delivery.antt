-- ===== src/Soar/Delivery.antt =====
-- soar/worker.py: `_run_one`, the delivery of one queue item with its retries, and the drain.
use zaqorincore.Prelude.{
  ℕ, zero, suc, ◌+◌, ◌-◌, ◌*◌, String, Bool, true, ◌&&◌, Option, none, some, List, [], ◌∷◌, ◌++◌,
  min, take, append, ltb, leb, if◌then◌else◌, string_eq, pair_eq, contains,
}
use zaqorincore.Dict.{put}
use zaqorincore.Soar.Config.{Outcome}
use zaqorincore.Soar.Queue.{Pending, Delivery, Worker, Disk, maybe_dead_letter, cooldown_key}

abbrev pub backoff_schedule : List ℕ
backoff_schedule = 1 ∷ 5 ∷ 25 ∷ 125 ∷ 625 ∷ []

abbrev schedule_at : List ℕ → ℕ → ℕ
schedule_at [] i = 0
schedule_at (b ∷ bs) zero = b
schedule_at (b ∷ bs) (suc i) = schedule_at bs i

-- _BACKOFF_SCHEDULE[min(attempt - 1, len(_BACKOFF_SCHEDULE) - 1)]
unfoldable pub backoff : ℕ → ℕ
backoff attempt = schedule_at backoff_schedule (min (attempt - 1) 4)

abbrev drop_items : ℕ → List Pending → List Pending
drop_items zero xs = xs
drop_items (suc n) [] = []
drop_items (suc n) (x ∷ xs) = drop_items n xs

-- `_drain_queue_once`: the items whose deliveries it starts, and the queue without them.
unfoldable pub drain_queue_once : Bool → Worker → List Pending × Worker
drain_queue_once stop_set s =
    if stop_set then ([], s) else (take 16 s.queue, record s { queue = drop_items 16 s.queue })

-- What `deliver` does: it returns an outcome or raises.
pub data Reply : Type 0 where
  returned : Outcome → Reply
  raised : String → Reply

-- What the environment does at attempt k: whether the stop event is set before it and while it
-- waits, when it begins and when it has ended, what the backend answers, and whether the database
-- takes the row of the attempt, which it does not if it is lost or an error text is too long for its
-- column. `is_uuid` is whether `uuid.UUID` reads a text.
pub record Run : Type 0 where
  pub stopped : ℕ → Bool
  pub stopped_waiting : ℕ → Bool
  pub begins : ℕ → ℕ
  pub ends : ℕ → ℕ
  pub reply : ℕ → Reply
  pub inserts : ℕ → Bool
  pub is_uuid : String → Bool

unfoldable pub exception_outcome : ℕ → Pending → String → Outcome
exception_outcome now item e = record {
  backend = item.backend_name;
  alert_id = item.alert.id;
  status_code = 0;
  attempted_at = now;
  duration_ms = 0;
  error = some (append "backend exception: " e);
  dead_lettered = true;
  payload_sha256 = "";
}

unfoldable pub outcome_of : ℕ → Pending → Reply → Outcome
unfolding exception_outcome
outcome_of now item (returned o) = o
outcome_of now item (raised e) = exception_outcome now item e

-- The row of an attempt.
unfoldable pub delivery_row : Run → Pending → Outcome → ℕ → Delivery
delivery_row r item o attempt = record {
  alert_id = if r.is_uuid item.alert.id then some item.alert.id else none;
  backend = item.backend_name;
  status_code = o.status_code;
  attempt = attempt;
  dead_lettered = o.dead_lettered;
}

unfoldable pub with_attempt : Run → Pending → Outcome → ℕ → Worker → Worker
with_attempt r item o attempt s = record s {
  deliveries = s.deliveries ++ delivery_row r item o attempt ∷ [];
}

-- `_persist_attempt`: none where the insert raises.
unfoldable pub persist_attempt : Run → Pending → Outcome → ℕ → Worker → Option Worker
unfolding with_attempt
persist_attempt r item o attempt s =
    if r.inserts attempt then some (with_attempt r item o attempt s) else none

unfoldable pub mark_cooldown : ℕ → Pending → Worker → Worker
unfolding cooldown_key
mark_cooldown now item s = record s {
  cooldowns = put (cooldown_key item.backend_name item.alert) now s.cooldowns;
}

-- What follows the loop.
unfoldable pub finish : Pending → Worker → Worker
finish item s =
    let pair : String × String = (item.alert.id, item.backend_name) in
    record s {
      finished = if contains pair s.finished then s.finished else pair ∷ s.finished;
      unfinished = s.unfinished - 1;
    }

-- What an attempt leads to.
pub data Next : Type 0 where
  give_up success retry : Next

unfoldable pub decide : Outcome → ℕ → ℕ → Next
decide o attempt max_retries =
    if o.dead_lettered
    then give_up
    else if leb 200 o.status_code && ltb o.status_code 400
    then success
    else if ltb max_retries attempt
    then give_up
    else retry

-- What follows an attempt that is persisted; `later` is the rest of the loop.
unfoldable pub settle : Disk → ℕ → Pending → Outcome → ℕ → Worker → Worker → Next → Worker
settle d now item o attempt s later give_up = finish item (maybe_dead_letter d item o attempt s)
settle d now item o attempt s later success = finish item (mark_cooldown now item s)
settle d now item o attempt s later retry = later

-- The item with its next attempt scheduled.
unfoldable pub rescheduled : Run → ℕ → Pending → Pending
unfolding backoff
rescheduled r attempt item = record item {
  attempt = attempt + 1;
  next_eligible_at = r.ends attempt + backoff attempt * 1000;
}

-- The loop, with the number of attempts that are left. It returns without `finish` when the worker
-- is stopped, and an insert that raises leaves `_run_one` without `finish` too.
unfoldable pub attempts : Disk → Run → ℕ → ℕ → Pending → Worker → Worker
attempts d r zero attempt item s = finish item s
attempts d r (suc left) attempt item s =
    let o = outcome_of (r.ends attempt) item (r.reply attempt) in
    let ran : Worker = elim (persist_attempt r item o attempt s) [
      | none ↦ s
      | some s' ↦
          settle d (r.ends attempt) item o attempt s'
            (attempts d r left (attempt + 1) (rescheduled r attempt item) s')
            (decide o attempt item.config.max_retries)
    ] in
    if ltb 1 attempt && r.stopped attempt
    then s
    else if ltb (r.begins attempt) item.next_eligible_at && r.stopped_waiting attempt
    then s
    else ran

unfoldable pub run_one : Disk → Run → Pending → Worker → Worker
unfolding attempts settle decide outcome_of persist_attempt rescheduled finish
run_one d r item s = attempts d r (item.config.max_retries + 2 - item.attempt) item.attempt item s
