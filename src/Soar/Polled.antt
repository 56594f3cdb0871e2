-- ===== src/Soar/Polled.antt =====
-- soar/worker.py: what a poll leaves in the bounded queue.
use zaqorincore.Prelude.{
  ℕ, ◌≤◌, ◌<◌, String, Option, none, some, List, [], ◌∷◌, ◌++◌, length, if◌then◌else◌, string_eq,
  pair_eq, contains, ==_refl, ◌≡◌, refl, ap, ◌∙◌, inl, inr, arith, Bool-cases, append_assoc,
}
use mathlib.Core.Path.{subst}
use zaqorincore.Dict.{Dict, get}
use zaqorincore.Soar.Config.{BackendConfig, Alert}
use zaqorincore.Soar.Newest.{
  newest, newest-append, Puts, put_or_drop-Puts, length-newest-le, Puts-none, Puts-trans,
}
use zaqorincore.Soar.Queue.{
  Pending, Worker, Disk, AlertRow, CooldownKey, alert_of, enqueue_configured, enqueue_for,
  enqueue_each, enqueue_row, poll_rows, passes, cooldown_key, add_once,
}

-- The alerts that are enqueued once these items of an alert are.
abbrev pub seen_after : String → List Pending → List String → List String
seen_after id [] seen = seen
seen_after id (item ∷ items) seen = add_once id seen

-- The items that a poll has for the queue, without the queue: of each row that is not yet enqueued one
-- for each backend that is configured and lets the alert pass.
module _ (now : ℕ) (backends : Dict String BackendConfig) (cooldowns : Dict CooldownKey ℕ) where
  abbrev pub wanted_one : Alert → String → Option BackendConfig → List Pending
  wanted_one alert name none = []
  wanted_one alert name (some cfg) =
      if passes cfg alert (get (cooldown_key name alert) cooldowns) now
      then record {
        alert = alert;
        backend_name = name;
        config = cfg;
        attempt = 1;
        next_eligible_at = now;
      }
        ∷ []
      else []

  abbrev pub wanted_each : Alert → List String → List Pending
  wanted_each alert [] = []
  wanted_each alert (name ∷ names) =
      wanted_one alert name (get name backends) ++ wanted_each alert names

  abbrev pub wanted_rows : List String → List AlertRow → List String → List Pending
  wanted_rows names [] seen = []
  wanted_rows names (row ∷ rows) seen =
      let items = wanted_each (alert_of row) names in
      let later = wanted_rows names rows seen in
      let after = wanted_rows names rows (seen_after row.id items seen) in
      if contains row.id seen then later else items ++ after

add_once_twice :
    (id : String) (seen : List String) → add_once id (add_once id seen) ≡ add_once id seen
add_once_twice id seen = elim (Bool-cases (contains id seen)) [
  | inl old ↦ rw (old, old) refl
  | inr new ↦ rw (new, ==_refl id) refl
]

seen_after-append :
    (id : String) (xs ys : List Pending) (seen : List String)
    → seen_after id ys (seen_after id xs seen) ≡ seen_after id (xs ++ ys) seen
seen_after-append id [] ys seen = refl
seen_after-append id (x ∷ xs) [] seen = refl
seen_after-append id (x ∷ xs) (y ∷ ys) seen = add_once_twice id seen

module _ (d : Disk) (now n : ℕ) (pos : 0 < n) where
  enqueue_configured-Puts :
      (alert : Alert) (name : String) (o : Option BackendConfig) (s : Worker)
      → s.queue_max ≡ n
      → length s.queue ≤ n
      → let items = wanted_one now s.backends s.cooldowns alert name o in
        Puts n s
          (enqueue_configured d now alert name o s)
          items
          (seen_after alert.id items s.enqueued)
  unfolding enqueue_configured
  enqueue_configured-Puts alert name none s max within = Puts-none n s within
  enqueue_configured-Puts alert name (some cfg) s max within =
      elim (Bool-cases (passes cfg alert (get (cooldown_key name alert) s.cooldowns) now)) [
        | inl passed ↦
            let item : Pending = record {
              alert = alert;
              backend_name = name;
              config = cfg;
              attempt = 1;
              next_eligible_at = now;
            } in
            let p =
              put_or_drop-Puts d now n item (record s { enqueued = add_once alert.id s.enqueued })
                pos max within in
            rw passed (record {
              queue = p.queue;
              same_max = p.same_max;
              same_backends = p.same_backends;
              same_cooldowns = p.same_cooldowns;
              enqueued = p.enqueued;
            })
        | inr filtered ↦ rw filtered (Puts-none n s within)
      ]

  within-Puts :
      (s t : Worker) (items : List Pending) (seen : List String)
      → Puts n s t items seen
      → length t.queue ≤ n
  within-Puts s t items seen p =
      let le = length-newest-le n (s.queue ++ items) in omega (arith, le, ap length p.queue)

  enqueue_each-Puts :
      (alert : Alert) (names : List String) (s : Worker)
      → s.queue_max ≡ n
      → length s.queue ≤ n
      → let items = wanted_each now s.backends s.cooldowns alert names in
        Puts n s (enqueue_each d now alert names s) items (seen_after alert.id items s.enqueued)
  unfolding enqueue_each enqueue_for
  enqueue_each-Puts alert [] s max within = Puts-none n s within
  enqueue_each-Puts alert (name ∷ names) s max within =
      let o = get name s.backends in
      let t = enqueue_for d now alert name s in
      let first = wanted_one now s.backends s.cooldowns alert name o in
      let rest = wanted_each now s.backends s.cooldowns alert names in
      let seen = seen_after alert.id first s.enqueued in
      let p : Puts n s t first seen = enqueue_configured-Puts alert name o s max within in
      let q = enqueue_each-Puts alert names t (p.same_max ∙ max) (within-Puts s t first seen p) in
      let items : wanted_each now t.backends t.cooldowns alert names ≡ rest =
        (λ i. wanted_each now (p.same_backends i) (p.same_cooldowns i) alert names) in
      let after : seen_after alert.id (wanted_each now t.backends t.cooldowns alert names)
            t.enqueued
          ≡ seen_after alert.id (first ++ rest) s.enqueued =
        (λ i. seen_after alert.id (items i) (p.enqueued i))
        ∙ seen_after-append alert.id first rest s.enqueued in
      Puts-trans n s t (enqueue_each d now alert names t) first rest seen
        (seen_after alert.id (first ++ rest) s.enqueued) p
        (subst
          (λ xs.
            Puts n t (enqueue_each d now alert names t) xs
              (seen_after alert.id (first ++ rest) s.enqueued))
          items
          (subst
            (Puts n t (enqueue_each d now alert names t)
              (wanted_each now t.backends t.cooldowns alert names))
            after q))

  row-Puts :
      (names : List String) (row : AlertRow) (s : Worker)
      → s.queue_max ≡ n
      → length s.queue ≤ n
      → let items = wanted_each now s.backends s.cooldowns (alert_of row) names in
        Puts n s
          (enqueue_each d now (alert_of row) names s)
          items
          (seen_after row.id items s.enqueued)
  unfolding alert_of
  row-Puts names row s max within = enqueue_each-Puts (alert_of row) names s max within

  -- If the queue has a positive maximum and is within it, a poll leaves the newest items of it all, as
  -- many as the maximum allows: of the queue before and then, row by row and backend by backend, of
  -- one item for each backend that is configured and lets the alert of a row pass that is not yet
  -- enqueued.
  pub poll_rows-newest :
      (names : List String) (rows : List AlertRow) (s : Worker)
      → s.queue_max ≡ n
      → length s.queue ≤ n
      → (poll_rows d now names rows s).queue
        ≡ newest n (s.queue ++ wanted_rows now s.backends s.cooldowns names rows s.enqueued)
  unfolding poll_rows enqueue_row
  poll_rows-newest names [] s max within = (Puts-none n s within).queue
  poll_rows-newest names (row ∷ rows) s max within =
      elim (Bool-cases (contains row.id s.enqueued)) [
        | inl known ↦ simp known (poll_rows-newest names rows s max within)
        | inr new ↦
            let t = enqueue_each d now (alert_of row) names s in
            let items = wanted_each now s.backends s.cooldowns (alert_of row) names in
            let seen = seen_after row.id items s.enqueued in
            let p : Puts n s t items seen = row-Puts names row s max within in
            let later = wanted_rows now s.backends s.cooldowns names rows seen in
            let same : wanted_rows now t.backends t.cooldowns names rows t.enqueued ≡ later = (λ i.
              wanted_rows now (p.same_backends i) (p.same_cooldowns i) names rows (p.enqueued i)) in
            simp new (
              poll_rows-newest names rows t (p.same_max ∙ max) (within-Puts s t items seen p)
              ∙ (λ i. newest n (p.queue i ++ same i))
              ∙ newest-append n (s.queue ++ items) later
              ∙ ap (newest n) (append_assoc s.queue items later))
      ]
