-- ===== src/Soar/Retries.antt =====
-- How `_run_one` ends: bounded attempts, success, exhaustion, and what is not kept.
use zaqorincore.Prelude.{
  ℕ, zero, suc, ◌+◌, ◌-◌, ◌≤◌, Bool, true, false, ◌&&◌, length, ltb, string_eq, pair_eq, ◌≡◌, refl,
  arith, length-append, Bool-cases, inl, inr, if◌then◌else◌,
}
use zaqorincore.Soar.Config.{Outcome}
use zaqorincore.Soar.Queue.{Pending, Worker, Disk, maybe_dead_letter}
use zaqorincore.Soar.Delivery.{
  Run, outcome_of, with_attempt, persist_attempt, mark_cooldown, finish, settle, rescheduled, Next,
  give_up, success, retry, decide, attempts, run_one,
}

pub with_attempt-length :
    (r : Run) (item : Pending) (o : Outcome) (k : ℕ) (s : Worker)
    → length (with_attempt r item o k s).deliveries ≡ length s.deliveries + 1
unfolding with_attempt
with_attempt-length r item o k s = length-append s.deliveries _

settle-length :
    (d : Disk) (now : ℕ) (item : Pending) (o : Outcome) (k n : ℕ) (s later : Worker) (v : Next)
    → length s.deliveries ≤ n
    → length later.deliveries ≤ n
    → length (settle d now item o k s later v).deliveries ≤ n
unfolding settle finish maybe_dead_letter mark_cooldown
settle-length d now item o k n s later give_up h g = ground arith
settle-length d now item o k n s later success h g = h
settle-length d now item o k n s later retry h g = g

either_stop-le :
    (b c : Bool) (s ran : Worker) (n : ℕ)
    → length s.deliveries ≤ n
    → length ran.deliveries ≤ n
    → length (if b then s else if c then s else ran).deliveries ≤ n
either_stop-le b c s ran n old new = ground arith

attempts-length-le :
    (d : Disk) (r : Run) (left k : ℕ) (item : Pending) (s : Worker)
    → length (attempts d r left k item s).deliveries ≤ length s.deliveries + left
unfolding attempts finish persist_attempt
attempts-length-le d r zero k item s = omega arith
attempts-length-le d r (suc left) k item s =
    let o = outcome_of (r.ends k) item (r.reply k) in
    let s' = with_attempt r item o k s in
    let later = attempts d r left (k + 1) (rescheduled r k item) s' in
    let old : length s.deliveries ≤ length s.deliveries + suc left = omega arith in
    let rest : length later.deliveries ≤ length s.deliveries + suc left = omega (
      arith,
      with_attempt-length r item o k s,
      attempts-length-le d r left (k + 1) (rescheduled r k item) s',
    ) in
    let settled =
      settle-length d (r.ends k) item o k (length s.deliveries + suc left) s' later
        (decide o k item.config.max_retries) (omega (arith, with_attempt-length r item o k s))
        rest in
    let b = ltb 1 k && r.stopped k in
    let c = ltb (r.begins k) item.next_eligible_at && r.stopped_waiting k in
    let n = length s.deliveries + suc left in
    let ran = settle d (r.ends k) item o k s' later (decide o k item.config.max_retries) in
    elim (Bool-cases (r.inserts k)) [
      | inl e ↦ rw e (either_stop-le b c s ran n old settled)
      | inr e ↦ rw e (either_stop-le b c s s n old old)
    ]

-- Whatever the backend answers, wherever the worker is stopped and whichever inserts raise, `_run_one` persists at most as
-- many attempts as are left of `max_retries + 1`.
pub run_one-length-le :
    (d : Disk) (r : Run) (item : Pending) (s : Worker)
    → length (run_one d r item s).deliveries
      ≤ length s.deliveries + (item.config.max_retries + 2 - item.attempt)
unfolding run_one
run_one-length-le d r item s =
    attempts-length-le d r (item.config.max_retries + 2 - item.attempt) item.attempt item s

-- The worker is never stopped, and the database takes the row of every attempt.
pub record Undisturbed (r : Run) : Type 0 where
  pub not_stopped : (k : ℕ) → r.stopped k ≡ false
  pub not_stopped_waiting : (k : ℕ) → r.stopped_waiting k ≡ false
  pub inserted : (k : ℕ) → r.inserts k ≡ true

and_false : (b : Bool) → (b && false) ≡ false
and_false true = refl
and_false false = refl

pub attempts-step :
    (d : Disk) (r : Run)
    → Undisturbed r
    → (left k : ℕ) (item : Pending) (s : Worker)
    → let o = outcome_of (r.ends k) item (r.reply k) in
      let s' = with_attempt r item o k s in
      attempts d r (suc left) k item s
      ≡ settle d
          (r.ends k)
          item
          o
          k
          s'
          (attempts d r left (k + 1) (rescheduled r k item) s')
          (decide o k item.config.max_retries)
unfolding attempts persist_attempt
attempts-step d r live left k item s = rw (
  live.not_stopped k,
  live.not_stopped_waiting k,
  live.inserted k,
  and_false (ltb 1 k),
  and_false (ltb (r.begins k) item.next_eligible_at),
)

pub run_one-attempts :
    (d : Disk) (r : Run) (left : ℕ) (item : Pending) (s : Worker)
    → item.attempt ≡ 1
    → item.config.max_retries + 2 - item.attempt ≡ left
    → run_one d r item s ≡ attempts d r left 1 item s
unfolding run_one
run_one-attempts d r left item s first all = λ i. attempts d r (all i) (first i) item s
