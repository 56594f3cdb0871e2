-- ===== src/Soar/Overflow.antt =====
-- soar/worker.py: what the overflow path does not keep.
use zaqorincore.Prelude.{
  ℕ, ◌-◌, ◌≤◌, String, true, false, List, [], ◌∷◌, ◌++◌, length, string_eq, pair_eq, ◌≡◌, refl, ap,
  arith,
}
use zaqorincore.Dict.{get, get-put}
use zaqorincore.Soar.Config.{Outcome}
use zaqorincore.Soar.Queue.{
  Pending, Worker, Disk, maybe_dead_letter, is_dead_letter_candidate, dead_letter_name,
  dead_letter_queue_full, is_full, push, drop_oldest, put_or_drop,
}

queue_full-ignored :
    (d : Disk) (now : ℕ) (item : Pending) (s : Worker)
    → item.attempt ≤ item.config.max_retries
    → dead_letter_queue_full d now item s ≡ s
unfolding dead_letter_queue_full is_dead_letter_candidate
queue_full-ignored d now item s le = ground arith

module _ (oldest : Pending) (rest : List Pending) (s : Worker) where
  full-drop_oldest :
      (d : Disk) (now : ℕ)
      → oldest.attempt ≤ oldest.config.max_retries
      → drop_oldest d now (oldest ∷ rest) s
        ≡ record s { queue = rest; unfinished = s.unfinished - 1 }
  unfolding drop_oldest
  full-drop_oldest d now le =
      queue_full-ignored d now oldest (record s { queue = rest; unfinished = s.unfinished - 1 }) le

  full-is_full : s.queue ≡ oldest ∷ rest → length s.queue ≡ s.queue_max → is_full s ≡ true
  unfolding is_full
  full-is_full e full = ground (arith, ap length e)

  full-has_room :
      s.queue ≡ oldest ∷ rest
      → length s.queue ≡ s.queue_max
      → is_full (record s { queue = rest; unfinished = s.unfinished - 1 }) ≡ false
  unfolding is_full
  full-has_room e full = ground (arith, ap length e)

-- If the queue is exactly full, so that the oldest item makes room for a new one, and that oldest
-- item still has retries left (an item that was never run does, if `max_retries` is positive), then
-- the item is gone from the queue and no dead letter is written for it.
pub put_or_drop-loses :
    (d : Disk) (now : ℕ) (item oldest : Pending) (rest : List Pending) (s : Worker)
    → s.queue ≡ oldest ∷ rest
    → length s.queue ≡ s.queue_max
    → oldest.attempt ≤ oldest.config.max_retries
    → ((put_or_drop d now item s).queue ≡ rest ++ item ∷ [])
      × ((put_or_drop d now item s).dead_letters ≡ s.dead_letters)
unfolding put_or_drop push
put_or_drop-loses d now item oldest rest s e full le =
    rw
      (
        full-is_full oldest rest s e full,
        e,
        full-drop_oldest oldest rest s d now le,
        full-has_room oldest rest s e full,
      )
      (refl, refl)

-- A second dead letter of the same alert with the same time stamp replaces the first, of whatever
-- backend, if both are written: no name leads to the first one.
pub maybe_dead_letter-replaces :
    (d : Disk) (a b : Pending) (o p : Outcome) (k l : ℕ) (s : Worker)
    → is_dead_letter_candidate o k a.config ≡ true
    → is_dead_letter_candidate p l b.config ≡ true
    → d.can_write ≡ true
    → a.alert.id ≡ b.alert.id
    → d.stamp o.attempted_at ≡ d.stamp p.attempted_at
    → (name : String)
    → get name (maybe_dead_letter d b p l (maybe_dead_letter d a o k s)).dead_letters
      ≡ get name (maybe_dead_letter d b p l s).dead_letters
unfolding maybe_dead_letter dead_letter_name
maybe_dead_letter-replaces d a b o p k l s co cp w same_id same_stamp name =
    simp (co, cp, w, same_id, same_stamp, get-put) (ground arith)
