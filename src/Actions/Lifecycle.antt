-- ===== src/Actions/Lifecycle.antt =====
-- The life cycle of an action: pending, dispatched, then applied or failed.
use zaqorincore.Prelude.{
  ℕ, Bool, true, false, ◌&&◌, List, [], ◌∷◌, map, any, if◌then◌else◌, nat_eq, nat_beq, ◌≡◌, refl,
  arith, Bool-cases, inl, inr,
}
use zaqorincore.Actions.Store.{
  Status, pending, dispatched, applied, failed, Action, has_status, mark_dispatched, mark_applied,
  mark_failed,
}

-- One change of one row.
pub data Step : Status → Status → Type 0 where
  send : Step pending dispatched
  succeed : Step dispatched applied
  fail : Step dispatched failed

pub data Reach (s : Status) : Status → Type 0 where
  here : Reach s s
  next : {t u : Status} → Reach s t → Step t u → Reach s u

-- What the server and an agent's acknowledgement do to the table.
pub data Update : Type 0 where
  set_dispatched set_applied set_failed : ℕ → ℕ → Update

unfoldable pub update : Update → List Action → List Action
update (set_dispatched now id) rows = (mark_dispatched now id rows).0
update (set_applied now id) rows = (mark_applied now id rows).0
update (set_failed now id) rows = (mark_failed now id rows).0

unfoldable pub update_all : List Update → List Action → List Action
update_all [] rows = rows
update_all (u ∷ us) rows = update_all us (update u rows)

-- The command is the same, and the status has followed the life cycle.
pub record Continues (a b : Action) : Type 0 where
  pub same_id : b.id ≡ a.id
  pub same_host : b.host_id ≡ a.host_id
  pub same_kind : b.kind ≡ a.kind
  pub same_target : b.target ≡ a.target
  pub same_ttl : b.ttl_sec ≡ a.ttl_sec
  pub reaches : Reach a.status b.status

abbrev pub Continue : List Action → List Action → Type 0
Continue [] [] = Unit
Continue (a ∷ as_) (b ∷ bs) = Continues a b × Continue as_ bs
Continue _ _ = ⊥

Continues-refl : (a : Action) → Continues a a
Continues-refl a = record {
  same_id = refl;
  same_host = refl;
  same_kind = refl;
  same_target = refl;
  same_ttl = refl;
  reaches = here;
}

Reach-trans : {s t u : Status} → Reach s t → Reach t u → Reach s u
Reach-trans p here = p
Reach-trans p (next q st) = next (Reach-trans p q) st

Continues-trans : (a b c : Action) → Continues a b → Continues b c → Continues a c
Continues-trans a b c p q = record {
  same_id = cc;
  same_host = cc;
  same_kind = cc;
  same_target = cc;
  same_ttl = cc;
  reaches = Reach-trans p.reaches q.reaches;
}

pub Continue-trans : (xs ys zs : List Action) → Continue xs ys → Continue ys zs → Continue xs zs
Continue-trans [] [] [] p q = tt
Continue-trans (x ∷ xs) (y ∷ ys) (z ∷ zs) p q =
    (Continues-trans x y z p.0 q.0, Continue-trans xs ys zs p.1 q.1)
Continue-trans [] [] (z ∷ zs) p q = absurd q
Continue-trans [] (y ∷ ys) zs p q = absurd p
Continue-trans (x ∷ xs) [] zs p q = absurd p
Continue-trans (x ∷ xs) (y ∷ ys) [] p q = absurd q

map-Continue :
    (hit : Action → Bool) (f : Action → Action)
    → ((a : Action) → hit a ≡ true → Continues a (f a))
    → (rows : List Action) → Continue rows (map (λ a. if hit a then f a else a) rows)
map-Continue hit f h [] = tt
map-Continue hit f h (a ∷ rows) = elim (Bool-cases (hit a)) [
  | inl e ↦ rw e (h a e, map-Continue hit f h rows)
  | inr e ↦ rw e (Continues-refl a, map-Continue hit f h rows)
]

has_status-eq : (s t : Status) → has_status s t ≡ true → s ≡ t
has_status-eq pending t h = ground arith
has_status-eq dispatched t h = ground arith
has_status-eq applied t h = ground arith
has_status-eq failed t h = ground arith

pub update-Continue : (u : Update) (rows : List Action) → Continue rows (update u rows)
unfolding update mark_dispatched mark_applied mark_failed
update-Continue (set_dispatched now id) rows =
    map-Continue _ _
      (λ a h. record {
        same_id = refl;
        same_host = refl;
        same_kind = refl;
        same_target = refl;
        same_ttl = refl;
        reaches = rw (has_status-eq a.status pending (ground arith)) (next here send);
      })
      rows
update-Continue (set_applied now id) rows =
    map-Continue _ _
      (λ a h. record {
        same_id = refl;
        same_host = refl;
        same_kind = refl;
        same_target = refl;
        same_ttl = refl;
        reaches = rw (has_status-eq a.status dispatched (ground arith)) (next here succeed);
      })
      rows
update-Continue (set_failed now id) rows =
    map-Continue _ _
      (λ a h. record {
        same_id = refl;
        same_host = refl;
        same_kind = refl;
        same_target = refl;
        same_ttl = refl;
        reaches = rw (has_status-eq a.status dispatched (ground arith)) (next here fail);
      })
      rows

pub Continue-refl : (rows : List Action) → Continue rows rows
Continue-refl [] = tt
Continue-refl (a ∷ rows) = (Continues-refl a, Continue-refl rows)

-- Whatever dispatches and acknowledgements are written, in any order and for any ids, each row
-- keeps its id, host, kind, target and TTL, and its status moves only along pending, dispatched,
-- then applied or failed.
pub update_all-Continue :
    (us : List Update) (rows : List Action) → Continue rows (update_all us rows)
unfolding update_all
update_all-Continue [] rows = Continue-refl rows
update_all-Continue (u ∷ us) rows =
    Continue-trans rows (update u rows) (update_all us (update u rows)) (update-Continue u rows)
      (update_all-Continue us (update u rows))

-- No row with this id is pending.
abbrev pub NonePending : ℕ → List Action → Type 0
NonePending id rows = any (λ a. nat_beq a.id id && has_status a.status pending) rows ≡ false

update-NonePending :
    (id : ℕ) (u : Update) (rows : List Action)
    → NonePending id rows
    → NonePending id (update u rows)
unfolding update mark_dispatched mark_applied mark_failed
update-NonePending id u [] h = ground arith
update-NonePending id (set_dispatched now i) (a ∷ rows) h =
    ground (arith, update-NonePending id (set_dispatched now i) rows)
update-NonePending id (set_applied now i) (a ∷ rows) h =
    ground (arith, update-NonePending id (set_applied now i) rows)
update-NonePending id (set_failed now i) (a ∷ rows) h =
    ground (arith, update-NonePending id (set_failed now i) rows)

update_all-NonePending :
    (id : ℕ) (us : List Update) (rows : List Action)
    → NonePending id rows
    → NonePending id (update_all us rows)
unfolding update_all
update_all-NonePending id [] rows h = h
update_all-NonePending id (u ∷ us) rows h =
    update_all-NonePending id us (update u rows) (update-NonePending id u rows h)

mark_dispatched-NonePending :
    (now id : ℕ) (rows : List Action) → NonePending id (mark_dispatched now id rows).0
unfolding mark_dispatched
mark_dispatched-NonePending now id [] = refl
mark_dispatched-NonePending now id (a ∷ rows) =
    ground (arith, mark_dispatched-NonePending now id rows)

-- Once `mark_dispatched` has run for an id, no later call for that id updates a row, whatever
-- dispatches and acknowledgements come between.
pub mark_dispatched_once :
    (now later id : ℕ) (us : List Update) (rows : List Action)
    → (mark_dispatched later id (update_all us (mark_dispatched now id rows).0)).1 ≡ false
mark_dispatched_once now later id us rows =
    let none_left =
      update_all-NonePending id us (mark_dispatched now id rows).0
        (mark_dispatched-NonePending now id rows) in
    unfold mark_dispatched in none_left
