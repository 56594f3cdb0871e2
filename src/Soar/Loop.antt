-- ===== src/Soar/Loop.antt =====
-- soar/worker.py: the loop of `_run_one` with its own condition, on fuel, ends by itself.
use zaqorincore.Prelude.{
  ℕ, zero, suc, ◌+◌, ◌-◌, ◌<◌, Bool, true, false, ◌&&◌, Option, none, some, leb, ltb, if◌then◌else◌,
  ◌≡◌, refl, arith, Bool-cases, inl, inr,
}
use zaqorincore.Soar.Config.{Outcome}
use zaqorincore.Soar.Queue.{Pending, Worker, Disk, maybe_dead_letter}
use zaqorincore.Soar.Delivery.{
  Run, outcome_of, with_attempt, persist_attempt, mark_cooldown, finish, Next, give_up, success,
  retry, settle, decide, rescheduled, attempts, run_one,
}

-- `settle`, where the rest of the loop may run out of fuel.
unfoldable pub settle_within :
    Disk → ℕ → Pending → Outcome → ℕ → Worker → Option Worker → Next → Option Worker
settle_within d now item o attempt s later give_up =
    some (finish item (maybe_dead_letter d item o attempt s))
settle_within d now item o attempt s later success = some (finish item (mark_cooldown now item s))
settle_within d now item o attempt s later retry = later

-- `while attempt <= max_retries + 1`: none where the fuel does not suffice.
unfoldable pub while_left : Disk → Run → ℕ → ℕ → Pending → Worker → Option Worker
while_left d r zero attempt item s = none
while_left d r (suc fuel) attempt item s =
    let o = outcome_of (r.ends attempt) item (r.reply attempt) in
    let ran : Option Worker = elim (persist_attempt r item o attempt s) [
      | none ↦ some s
      | some s' ↦
          settle_within d (r.ends attempt) item o attempt s'
            (while_left d r fuel (attempt + 1) (rescheduled r attempt item) s')
            (decide o attempt item.config.max_retries)
    ] in
    if leb attempt (item.config.max_retries + 1)
    then (if ltb 1 attempt && r.stopped attempt
        then some s
        else if ltb (r.begins attempt) item.next_eligible_at && r.stopped_waiting attempt
        then some s
        else ran)
    else some (finish item s)

settle_within-some :
    (d : Disk) (now : ℕ) (item : Pending) (o : Outcome) (k : ℕ) (s later : Worker) (next : Next)
    → settle_within d now item o k s (some later) next ≡ some (settle d now item o k s later next)
unfolding settle_within settle
settle_within-some d now item o k s later give_up = refl
settle_within-some d now item o k s later success = refl
settle_within-some d now item o k s later retry = refl

some_either :
    {A : Type 0} (b c : Bool) (x y z : A)
    → (if b then some x else if c then some y else some z)
      ≡ some (if b then x else if c then y else z)
some_either b c x y z = ground arith

no_turn : (k max : ℕ) → zero ≡ max + 2 - k → leb k (max + 1) ≡ false
no_turn k max e = ground arith

a_turn : (k max left : ℕ) → suc left ≡ max + 2 - k → leb k (max + 1) ≡ true
a_turn k max left e = ground arith

rescheduled-left :
    (r : Run) (left k : ℕ) (item : Pending)
    → suc left ≡ item.config.max_retries + 2 - k
    → left ≡ (rescheduled r k item).config.max_retries + 2 - (k + 1)
unfolding rescheduled
rescheduled-left r left k item e = omega arith

while_left-attempts :
    (d : Disk) (r : Run) (fuel left k : ℕ) (item : Pending) (s : Worker)
    → left < fuel
    → left ≡ item.config.max_retries + 2 - k
    → while_left d r fuel k item s ≡ some (attempts d r left k item s)
unfolding while_left attempts persist_attempt
while_left-attempts d r zero left k item s lt e = ground arith
while_left-attempts d r (suc fuel) zero k item s lt e =
    rw (no_turn k item.config.max_retries e) refl
while_left-attempts d r (suc fuel) (suc left) k item s lt e =
    let o = outcome_of (r.ends k) item (r.reply k) in
    let s' = with_attempt r item o k s in
    let rest =
      while_left-attempts d r fuel left (k + 1) (rescheduled r k item) s' (omega arith)
        (rescheduled-left r left k item e) in
    let by_stops =
      some_either (ltb 1 k && r.stopped k)
        (ltb (r.begins k) item.next_eligible_at && r.stopped_waiting k) s s in
    elim (Bool-cases (r.inserts k)) [
      | inl inserted ↦
          rw (a_turn k item.config.max_retries left e, inserted, rest, settle_within-some)
            (by_stops _)
      | inr failed ↦ rw (a_turn k item.config.max_retries left e, failed) (by_stops s)
    ]

-- The loop of `_run_one` ends by itself: with more fuel than attempts that are left, whatever the
-- backend answers, wherever the worker is stopped and whichever inserts raise, it gives what the model of `_run_one` gives.
pub run_one-while_left :
    (d : Disk) (r : Run) (fuel : ℕ) (item : Pending) (s : Worker)
    → item.config.max_retries + 2 - item.attempt < fuel
    → while_left d r fuel item.attempt item s ≡ some (run_one d r item s)
unfolding run_one
run_one-while_left d r fuel item s enough =
    while_left-attempts d r fuel (item.config.max_retries + 2 - item.attempt) item.attempt item s
      enough refl
