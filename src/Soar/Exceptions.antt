-- ===== src/Soar/Exceptions.antt =====
-- soar/worker.py: a backend that raises.
use zaqorincore.Prelude.{
  ℕ, suc, ◌+◌, ◌≤◌, ◌≡◌, refl, true, String, length, contains, string_eq, pair_eq, arith,
}
use zaqorincore.Soar.Queue.{Pending, Worker, Disk, maybe_dead_letter, is_dead_letter_candidate}
use zaqorincore.Soar.Delivery.{
  raised, Run, exception_outcome, outcome_of, with_attempt, finish, settle, rescheduled, give_up,
  decide, attempts, run_one,
}
use zaqorincore.Soar.Retries.{Undisturbed, attempts-step, with_attempt-length, run_one-attempts}
use zaqorincore.Soar.Endings.{pair_of, finish-finished}

-- The delivery ended after one attempt and left no dead letter.
pub record Forgotten (item : Pending) (s s' : Worker) : Type 0 where
  pub no_dead_letter : s'.dead_letters ≡ s.dead_letters
  pub one_attempt : length s'.deliveries ≡ length s.deliveries + 1
  pub finished : contains (pair_of item) s'.finished ≡ true

decide-exception :
    (now : ℕ) (item : Pending) (e : String) (k n : ℕ)
    → decide (exception_outcome now item e) k n ≡ give_up
unfolding decide exception_outcome
decide-exception now item e k n = refl

exception-ignored :
    (d : Disk) (now : ℕ) (item : Pending) (e : String) (k : ℕ) (s : Worker)
    → k ≤ item.config.max_retries
    → maybe_dead_letter d item (exception_outcome now item e) k s ≡ s
unfolding maybe_dead_letter is_dead_letter_candidate exception_outcome
exception-ignored d now item e k s le = ground arith

exception-Forgotten :
    (d : Disk) (r : Run) (now : ℕ) (item : Pending) (e : String) (k : ℕ) (s later : Worker)
    → k ≤ item.config.max_retries
    → Forgotten item s (
        settle d now item
          (exception_outcome now item e)
          k
          (with_attempt r item (exception_outcome now item e) k s)
          later
          give_up)
unfolding settle
exception-Forgotten d r now item e k s later le =
    rw
      (exception-ignored d now item e k (with_attempt r item (exception_outcome now item e) k s) le)
      (record {
        no_dead_letter = unfold finish with_attempt in refl;
        one_attempt =
            unfold finish in with_attempt-length r item (exception_outcome now item e) k s;
        finished = finish-finished item (with_attempt r item (exception_outcome now item e) k s);
      })

-- If `max_retries` is positive, the backend raises at the first attempt, the worker is not stopped
-- and the database takes the rows of attempts, then `_run_one` finishes the pair after that one
-- attempt and writes no dead letter.
pub run_one-Forgotten :
    (d : Disk) (r : Run) (item : Pending) (s : Worker) (e : String)
    → Undisturbed r
    → item.attempt ≡ 1
    → 1 ≤ item.config.max_retries
    → r.reply 1 ≡ raised e
    → Forgotten item s (run_one d r item s)
unfolding outcome_of
run_one-Forgotten d r item s e live first positive raises =
    let n = item.config.max_retries in
    rw
      (
        run_one-attempts d r (suc n) item s first (omega arith),
        attempts-step d r live n 1 item s,
        raises,
        decide-exception (r.ends 1) item e 1 n,
      )
      (exception-Forgotten d r (r.ends 1) item e 1 s
        (attempts d r n 2 (rescheduled r 1 item)
          (with_attempt r item (exception_outcome (r.ends 1) item e) 1 s))
        positive)
