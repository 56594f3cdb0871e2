-- ===== src/Soar/Success.antt =====
-- How `_run_one` of soar/worker.py ends with a success.
use zaqorincore.Prelude.{
  ℕ, zero, suc, ◌+◌, ◌-◌, ◌≤◌, ◌<◌, true, false, some, length, string_eq, pair_eq, ==_refl,
  contains, ◌≡◌, refl, arith,
}
use mathlib.Core.Path.{subst}
use zaqorincore.Dict.{get, get-put}
use zaqorincore.Soar.Config.{Outcome}
use zaqorincore.Soar.Queue.{Pending, Worker, Disk, cooldown_key}
use zaqorincore.Soar.Delivery.{
  returned, Run, outcome_of, with_attempt, mark_cooldown, finish, settle, rescheduled, success,
  attempts, run_one,
}
use zaqorincore.Soar.Retries.{Undisturbed, attempts-step, with_attempt-length, run_one-attempts}
use zaqorincore.Soar.Endings.{FailsAt, decide-success, pair_of, finish-finished, one_more}

-- The delivery succeeded at the attempt `last`, which ended at `now`.
pub record Delivered (item : Pending) (now rows : ℕ) (s s' : Worker) : Type 0 where
  pub cooling : get (cooldown_key item.backend_name item.alert) s'.cooldowns ≡ some now
  pub all_persisted : length s'.deliveries ≡ length s.deliveries + rows
  pub finished : contains (pair_of item) s'.finished ≡ true
  pub no_dead_letter : s'.dead_letters ≡ s.dead_letters

-- An answer that counts as success.
pub record IsSuccess (o : Outcome) : Type 0 where
  pub accepted : o.dead_lettered ≡ false
  pub from_200 : 200 ≤ o.status_code
  pub below_400 : o.status_code < 400

success-Delivered :
    (d : Disk) (r : Run) (now k : ℕ) (item : Pending) (o : Outcome) (s later : Worker)
    → Delivered item now 1 s (settle d now item o k (with_attempt r item o k s) later success)
unfolding settle
success-Delivered d r now k item o s later = record {
  cooling = unfold finish mark_cooldown in simp (get-put, ==_refl);
  all_persisted = unfold finish mark_cooldown in ground (arith, with_attempt-length r item o k s);
  finished = finish-finished item (mark_cooldown now item (with_attempt r item o k s));
  no_dead_letter = unfold finish mark_cooldown with_attempt in refl;
}

module _ (d : Disk) (r : Run) (live : Undisturbed r) where
  success_now :
      (left k : ℕ) (item : Pending) (s : Worker) (o : Outcome)
      → r.reply k ≡ returned o
      → IsSuccess o
      → Delivered item (r.ends k) 1 s (attempts d r (suc left) k item s)
  unfolding outcome_of
  success_now left k item s o e h =
      rw
        (
          attempts-step d r live left k item s,
          e,
          decide-success o k item.config.max_retries h.accepted h.from_200 h.below_400,
        )
        (success-Delivered d r (r.ends k) k item o s
          (attempts d r left (k + 1) (rescheduled r k item) (with_attempt r item o k s)))

  after_failure :
      (k now rows : ℕ) (item : Pending) (s x : Worker) (p : Outcome)
      → Delivered (rescheduled r k item) now rows (with_attempt r item p k s) x
      → Delivered item now (suc rows) s x
  unfolding rescheduled
  after_failure k now rows item s x p g = record {
    cooling = g.cooling;
    all_persisted = omega (arith, g.all_persisted, with_attempt-length r item p k s);
    finished = g.finished;
    no_dead_letter = unfold with_attempt in g.no_dead_letter;
  }

  succeed :
      (left spare k last : ℕ) (item : Pending) (s : Worker) (o : Outcome)
      → k + left ≡ last
      → last ≤ item.config.max_retries + 1
      → ((j : ℕ) → k ≤ j → j < last → FailsAt r j)
      → r.reply last ≡ returned o
      → IsSuccess o
      → Delivered item (r.ends last) (suc left) s (attempts d r (suc (left + spare)) k item s)
  unfolding rescheduled
  succeed zero spare k last item s o sum end fails e h =
      let k_last : k ≡ last = omega arith in rw k_last (success_now (0 + spare) last item s o e h)
  succeed (suc left) spare k last item s o sum end fails e h =
      let (p, ep, hp) = fails k (omega arith) (omega arith) in
      let x =
        attempts d r (suc (left + spare)) (k + 1) (rescheduled r k item)
          (with_attempt r item p k s) in
      let g : Delivered (rescheduled r k item) (r.ends last) (suc left) (with_attempt r item p k s)
          x =
        succeed left spare (k + 1) last (rescheduled r k item) (with_attempt r item p k s) o
          (omega arith) end (λ j lo hi. fails j (omega arith) hi) e h in
      let shift : suc left + spare ≡ suc (left + spare) = omega arith in
      rw (shift, one_more d r live (suc (left + spare)) k item s p ep hp (omega arith))
        (after_failure k (r.ends last) (suc left) item s x p g)

  -- If the worker is not stopped, the database takes the row of every attempt and, after transient
  -- failures at all attempts before it, the attempt `last` of at most `max_retries + 1` succeeds, then
  -- `_run_one` persists `last` attempts, starts the cooldown when that attempt ends, finishes the pair
  -- and writes no dead letter.
  pub run_one-Delivered :
      (item : Pending) (s : Worker) (o : Outcome) (last : ℕ)
      → item.attempt ≡ 1
      → 1 ≤ last
      → last ≤ item.config.max_retries + 1
      → ((j : ℕ) → 1 ≤ j → j < last → FailsAt r j)
      → r.reply last ≡ returned o
      → IsSuccess o
      → Delivered item (r.ends last) last s (run_one d r item s)
  run_one-Delivered item s o last first lo hi fails e h =
      let left = last - 1 in
      let spare = item.config.max_retries + 1 - last in
      let all_left : item.config.max_retries + 2 - item.attempt ≡ suc (left + spare) =
        omega arith in
      let rows : suc left ≡ last = omega arith in
      rw (run_one-attempts d r (suc (left + spare)) item s first all_left) (
        subst (λ q. Delivered item (r.ends last) q s (attempts d r (suc (left + spare)) 1 item s))
          rows (succeed left spare 1 last item s o (omega arith) hi fails e h))
