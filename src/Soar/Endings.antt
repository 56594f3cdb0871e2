-- ===== src/Soar/Endings.antt =====
-- How a delivery that is not stopped ends: given up with a dead letter, or delivered.
use zaqorincore.Prelude.{
  ℕ, zero, suc, ◌+◌, ◌-◌, ◌≤◌, ◌<◌, String, true, false, some, length, string_eq, pair_eq, ==_refl,
  contains, ◌≡◌, refl, ◌∙◌, ◌⊎◌, inl, inr, arith, Bool-cases,
}
use mathlib.Core.Path.{subst}
use zaqorincore.Dict.{get, get-put}
use zaqorincore.Soar.Config.{BackendConfig, Outcome}
use zaqorincore.Soar.Queue.{
  Pending, Worker, Disk, maybe_dead_letter, is_dead_letter_candidate, dead_letter_name,
  dead_letter_body,
}
use zaqorincore.Soar.Delivery.{
  returned, Run, outcome_of, with_attempt, finish, settle, rescheduled, give_up, success, retry,
  decide, attempts, run_one,
}
use zaqorincore.Soar.Retries.{Undisturbed, attempts-step, with_attempt-length, run_one-attempts}

-- A failure that is worth another attempt.
abbrev pub IsTransient : Outcome → Type 0
IsTransient o = (o.dead_lettered ≡ false) × ((500 ≤ o.status_code) ⊎ (o.status_code ≡ 0))

-- At attempt k the backend answers with a transient failure.
abbrev pub FailsAt : Run → ℕ → Type 0
FailsAt r k = (o : Outcome) × (r.reply k ≡ returned o) × IsTransient o

decide-retry : (o : Outcome) (k n : ℕ) → IsTransient o → k ≤ n → decide o k n ≡ retry
unfolding decide
decide-retry o k n h le = ground arith

decide-give_up : (o : Outcome) (k n : ℕ) → IsTransient o → n < k → decide o k n ≡ give_up
unfolding decide
decide-give_up o k n h lt = ground arith

pub decide-success :
    (o : Outcome) (k n : ℕ)
    → o.dead_lettered ≡ false
    → 200 ≤ o.status_code
    → o.status_code < 400
    → decide o k n ≡ success
unfolding decide
decide-success o k n h lo hi = ground arith

-- The pair that marks a delivery as finished.
abbrev pub pair_of : Pending → String × String
pair_of item = (item.alert.id, item.backend_name)

pub finish-finished :
    (item : Pending) (s : Worker) → contains (pair_of item) (finish item s).finished ≡ true
unfolding finish
finish-finished item s = elim (Bool-cases (contains (pair_of item) s.finished)) [
  | inl old ↦ rw old old
  | inr new ↦ rw (new, ==_refl (pair_of item))
]

-- The delivery was given up after the attempt `last` with the outcome `o`.
pub record GivenUp (d : Disk) (item : Pending) (o : Outcome) (last rows : ℕ) (s s' : Worker)
    : Type 0 where
  pub stored :
      get (dead_letter_name d o.attempted_at item.alert.id) s'.dead_letters
      ≡ some (dead_letter_body item o last)
  pub all_persisted : length s'.deliveries ≡ length s.deliveries + rows
  pub finished : contains (pair_of item) s'.finished ≡ true
  pub no_cooldown : s'.cooldowns ≡ s.cooldowns

maybe_dead_letter-stored :
    (d : Disk) (item : Pending) (o : Outcome) (k : ℕ) (s : Worker)
    → is_dead_letter_candidate o k item.config ≡ true
    → d.can_write ≡ true
    → get
        (dead_letter_name d o.attempted_at item.alert.id)
        (maybe_dead_letter d item o k s).dead_letters
      ≡ some (dead_letter_body item o k)
unfolding maybe_dead_letter
maybe_dead_letter-stored d item o k s c w = simp (c, w, get-put, ==_refl)

give_up-GivenUp :
    (d : Disk) (r : Run) (now k : ℕ) (item : Pending) (o : Outcome) (s later : Worker)
    → is_dead_letter_candidate o k item.config ≡ true
    → d.can_write ≡ true
    → GivenUp d item o k 1 s (settle d now item o k (with_attempt r item o k s) later give_up)
unfolding settle
give_up-GivenUp d r now k item o s later c w = record {
  stored = unfold finish in maybe_dead_letter-stored d item o k (with_attempt r item o k s) c w;
  all_persisted =
      unfold finish maybe_dead_letter in ground (arith, with_attempt-length r item o k s);
  finished = finish-finished item (maybe_dead_letter d item o k (with_attempt r item o k s));
  no_cooldown = unfold finish maybe_dead_letter with_attempt in ground arith;
}

candidate_exhausted :
    (o : Outcome) (k : ℕ) (cfg : BackendConfig)
    → IsTransient o
    → cfg.max_retries < k
    → is_dead_letter_candidate o k cfg ≡ true
unfolding is_dead_letter_candidate
candidate_exhausted o k cfg h lt = ground arith

module _ (d : Disk) (r : Run) (live : Undisturbed r) where
  pub one_more :
      (left k : ℕ) (item : Pending) (s : Worker) (o : Outcome)
      → r.reply k ≡ returned o
      → IsTransient o
      → k ≤ item.config.max_retries
      → attempts d r (suc left) k item s
        ≡ attempts d r left (k + 1) (rescheduled r k item) (with_attempt r item o k s)
  unfolding settle outcome_of
  one_more left k item s o e h le =
      attempts-step d r live left k item s ∙ rw (e, decide-retry o k item.config.max_retries h le)

  last_one :
      (k : ℕ) (item : Pending) (s : Worker) (o : Outcome)
      → r.reply k ≡ returned o
      → IsTransient o
      → item.config.max_retries < k
      → d.can_write ≡ true
      → GivenUp d item o k 1 s (attempts d r 1 k item s)
  unfolding outcome_of
  last_one k item s o e h lt w =
      rw (attempts-step d r live 0 k item s, e, decide-give_up o k item.config.max_retries h lt)
        (give_up-GivenUp d r (r.ends k) k item o s _ (candidate_exhausted o k item.config h lt) w)

  earlier :
      (k last rows : ℕ) (item : Pending) (s x : Worker) (p o : Outcome)
      → GivenUp d (rescheduled r k item) o last rows (with_attempt r item p k s) x
      → GivenUp d item o last (suc rows) s x
  unfolding rescheduled dead_letter_body
  earlier k last rows item s x p o g = record {
    stored = g.stored;
    all_persisted = omega (arith, g.all_persisted, with_attempt-length r item p k s);
    finished = g.finished;
    no_cooldown = unfold with_attempt in g.no_cooldown;
  }

  exhaust :
      (left k last : ℕ) (item : Pending) (s : Worker) (o : Outcome)
      → k + left ≡ last
      → last ≡ item.config.max_retries + 1
      → ((j : ℕ) → k ≤ j → j ≤ item.config.max_retries → FailsAt r j)
      → r.reply last ≡ returned o
      → IsTransient o
      → d.can_write ≡ true
      → GivenUp d item o last (suc left) s (attempts d r (suc left) k item s)
  unfolding rescheduled
  exhaust zero k last item s o sum end fails e h w =
      let k_last : k ≡ last = omega arith in rw k_last (last_one last item s o e h (omega arith) w)
  exhaust (suc left) k last item s o sum end fails e h w =
      let (p, ep, hp) = fails k (omega arith) (omega arith) in
      let g =
        exhaust left (k + 1) last (rescheduled r k item) (with_attempt r item p k s) o (omega arith)
          end (λ j lo hi. fails j (omega arith) hi) e h w in
      rw (one_more (suc left) k item s p ep hp (omega arith)) (
        earlier k last (suc left) item s
          (attempts d r (suc left) (k + 1) (rescheduled r k item) (with_attempt r item p k s)) p o
          g)

  -- If the worker is not stopped, the database takes the row of every attempt, each of the attempts 1
  -- to `max_retries + 1` fails for a transient reason and the disk can be written, then `_run_one`
  -- persists all `max_retries + 1` attempts, leaves a dead letter of the last one, finishes the pair
  -- and starts no cooldown.
  pub run_one-exhausted :
      (item : Pending) (s : Worker) (o : Outcome)
      → item.attempt ≡ 1
      → ((j : ℕ) → 1 ≤ j → j ≤ item.config.max_retries → FailsAt r j)
      → r.reply (item.config.max_retries + 1) ≡ returned o
      → IsTransient o
      → d.can_write ≡ true
      → GivenUp d item o
          (item.config.max_retries + 1)
          (item.config.max_retries + 1)
          s
          (run_one d r item s)
  run_one-exhausted item s o first fails e h w =
      let n = item.config.max_retries in
      let left : n + 2 - item.attempt ≡ suc n = omega arith in
      let rows : suc n ≡ n + 1 = omega arith in
      rw (run_one-attempts d r (suc n) item s first left) (
        subst (λ q. GivenUp d item o (n + 1) q s (attempts d r (suc n) 1 item s)) rows
          (exhaust n 1 (n + 1) item s o (omega arith) refl fails e h w))
