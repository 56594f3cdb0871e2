-- ===== src/Soar/Newest.antt =====
-- soar/worker.py: what puts leave in the bounded queue.
use zaqorincore.Prelude.{
  ℕ, suc, ◌-◌, ◌≤◌, ◌<◌, String, true, false, List, [], ◌∷◌, ◌++◌, length, leb, if◌then◌else◌,
  string_eq, pair_eq, ◌≡◌, refl, sym, ap, ◌∙◌, inl, inr, arith, Bool-cases, length-append,
  append_assoc, append-nil,
}
use zaqorincore.Soar.Queue.{
  Pending, Worker, Disk, maybe_dead_letter, dead_letter_queue_full, is_full, push, drop_oldest,
  put_or_drop,
}

-- The last items of a list, at most n of them.
abbrev pub newest : {A : Type 0} → ℕ → List A → List A
newest n [] = []
newest n (x ∷ xs) = let rest = newest n xs in if leb (suc (length xs)) n then x ∷ xs else rest

newest-short : {A : Type 0} (n : ℕ) (xs : List A) → length xs ≤ n → newest n xs ≡ xs
newest-short n [] h = refl
newest-short n (x ∷ xs) h = ground (arith, h)

pub newest-append :
    {A : Type 0} (n : ℕ) (xs ys : List A) → newest n (newest n xs ++ ys) ≡ newest n (xs ++ ys)
newest-append n [] ys = refl
newest-append n (x ∷ xs) ys = elim (Bool-cases (leb (suc (length xs)) n)) [
  | inl short ↦ rw short refl
  | inr long ↦
      let longer : leb (suc (length (xs ++ ys))) n ≡ false =
        ground (arith, long, length-append xs ys) in
      rw (long, longer) (newest-append n xs ys)
]

-- The items have been put into the queue, of which the newest n have stayed; `seen` are the alerts
-- that are enqueued.
pub record Puts (n : ℕ) (s s' : Worker) (items : List Pending) (seen : List String) : Type 0 where
  pub queue : s'.queue ≡ newest n (s.queue ++ items)
  pub same_max : s'.queue_max ≡ s.queue_max
  pub same_backends : s'.backends ≡ s.backends
  pub same_cooldowns : s'.cooldowns ≡ s.cooldowns
  pub enqueued : s'.enqueued ≡ seen

record Kept (s s' : Worker) : Type 0 where
  queue : s'.queue ≡ s.queue
  same_max : s'.queue_max ≡ s.queue_max
  same_backends : s'.backends ≡ s.backends
  same_cooldowns : s'.cooldowns ≡ s.cooldowns
  enqueued : s'.enqueued ≡ s.enqueued

dead_letter_queue_full-Kept :
    (d : Disk) (now : ℕ) (item : Pending) (s : Worker)
    → Kept s (dead_letter_queue_full d now item s)
unfolding dead_letter_queue_full maybe_dead_letter
dead_letter_queue_full-Kept d now item s = record {
  queue = ground arith;
  same_max = ground arith;
  same_backends = ground arith;
  same_cooldowns = ground arith;
  enqueued = ground arith;
}

is_full-lt : (n : ℕ) (s : Worker) → 0 < n → s.queue_max ≡ n → is_full s ≡ false → length s.queue < n
unfolding is_full
is_full-lt n s pos max e = ground (arith, max, e)

is_full-le : (n : ℕ) (s : Worker) → s.queue_max ≡ n → is_full s ≡ true → n ≤ length s.queue
unfolding is_full
is_full-le n s max e = ground (arith, max, e)

has_room : (n : ℕ) (s : Worker) → s.queue_max ≡ n → length s.queue < n → is_full s ≡ false
unfolding is_full
has_room n s max lt = ground (arith, max, lt)

newest-full :
    {A : Type 0} (n : ℕ) (old new : A) (rest : List A)
    → suc (length rest) ≡ n
    → newest n (old ∷ rest ++ new ∷ []) ≡ rest ++ new ∷ []
newest-full n old new rest e =
    let size = length-append rest (new ∷ []) in
    let long : leb (suc (length (rest ++ new ∷ []))) n ≡ false = ground (arith, size, e) in
    rw long (newest-short n (rest ++ new ∷ []) (omega (arith, size, e)))

push-Puts :
    (n : ℕ) (item : Pending) (s : Worker)
    → length s.queue < n
    → Puts n s (push item s) (item ∷ []) s.enqueued
unfolding push
push-Puts n item s lt = record {
  queue = sym (
      newest-short n (s.queue ++ item ∷ [])
        (let size = length-append s.queue (item ∷ []) in omega (arith, size, lt)));
  same_max = refl;
  same_backends = refl;
  same_cooldowns = refl;
  enqueued = refl;
}

push-Kept-Puts :
    (n : ℕ) (item oldest : Pending) (rest : List Pending) (s s' : Worker)
    → s.queue ≡ oldest ∷ rest
    → suc (length rest) ≡ n
    → Kept (record s { queue = rest; unfinished = s.unfinished - 1 }) s'
    → Puts n s (push item s') (item ∷ []) s.enqueued
unfolding push
push-Kept-Puts n item oldest rest s s' e full k = record {
  queue =
      ap (λ q. q ++ item ∷ []) k.queue
      ∙ sym (newest-full n oldest item rest full)
      ∙ ap (λ q. newest n (q ++ item ∷ [])) (sym e);
  same_max = k.same_max;
  same_backends = k.same_backends;
  same_cooldowns = k.same_cooldowns;
  enqueued = k.enqueued;
}

-- In a queue that is full the new item takes the place of the oldest.
full-Puts :
    (d : Disk) (now n : ℕ) (item : Pending) (queue : List Pending) (s : Worker)
    → 0 < n
    → s.queue_max ≡ n
    → s.queue ≡ queue
    → length queue ≡ n
    → let s' = drop_oldest d now queue s in
      (is_full s' ≡ false) × Puts n s (push item s') (item ∷ []) s.enqueued
unfolding drop_oldest
full-Puts d now n item [] s pos max e full = absurd (omega (arith, pos, full))
full-Puts d now n item (oldest ∷ rest) s pos max e full =
    let without = record s { queue = rest; unfinished = s.unfinished - 1 } in
    let s' = dead_letter_queue_full d now oldest without in
    let k = dead_letter_queue_full-Kept d now oldest without in
    (
      has_room n s' (k.same_max ∙ max) (omega (arith, ap length k.queue, full)),
      push-Kept-Puts n item oldest rest s s' e full k,
    )

pub put_or_drop-Puts :
    (d : Disk) (now n : ℕ) (item : Pending) (s : Worker)
    → 0 < n
    → s.queue_max ≡ n
    → length s.queue ≤ n
    → Puts n s (put_or_drop d now item s) (item ∷ []) s.enqueued
unfolding put_or_drop
put_or_drop-Puts d now n item s pos max within = elim (Bool-cases (is_full s)) [
  | inl full ↦
      let size : length s.queue ≡ n =
        (let le = is_full-le n s max full in omega (arith, le, within)) in
      let (room, puts) = full-Puts d now n item s.queue s pos max refl size in rw (full, room) puts
  | inr room ↦ rw room (push-Puts n item s (is_full-lt n s pos max room))
]

pub length-newest-le : {A : Type 0} (n : ℕ) (xs : List A) → length (newest n xs) ≤ n
length-newest-le n [] = omega arith
length-newest-le n (x ∷ xs) = ground (arith, length-newest-le n xs)

pub Puts-none : (n : ℕ) (s : Worker) → length s.queue ≤ n → Puts n s s [] s.enqueued
Puts-none n s within = record {
  queue = sym (ap (newest n) (append-nil s.queue) ∙ newest-short n s.queue within);
  same_max = refl;
  same_backends = refl;
  same_cooldowns = refl;
  enqueued = refl;
}

pub Puts-trans :
    (n : ℕ) (s t u : Worker) (xs ys : List Pending) (seen after : List String)
    → Puts n s t xs seen
    → Puts n t u ys after
    → Puts n s u (xs ++ ys) after
Puts-trans n s t u xs ys seen after p q = record {
  queue =
      q.queue
      ∙ ap (λ l. newest n (l ++ ys)) p.queue
      ∙ newest-append n (s.queue ++ xs) ys
      ∙ ap (newest n) (append_assoc s.queue xs ys);
  same_max = q.same_max ∙ p.same_max;
  same_backends = q.same_backends ∙ p.same_backends;
  same_cooldowns = q.same_cooldowns ∙ p.same_cooldowns;
  enqueued = q.enqueued;
}
