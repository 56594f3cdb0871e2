-- ===== src/Actions/Store.antt =====
-- server/src/zaqorincore_server/detectors/action_service.py: the rows of the table `actions` and the
-- statements on it, with times as seconds and UUIDs as numbers. A new id is the caller's argument.
use zaqorincore.Prelude.{
  ℕ, String, Bool, true, false, ◌&&◌, Option, none, some, List, [], ◌∷◌, ◌++◌, map, any,
  if◌then◌else◌, nat_eq, nat_beq,
}

pub data Status : Type 0 where
  pending dispatched applied failed : Status

pub record Action : Type 0 where
  pub id : ℕ
  pub host_id : Option ℕ
  pub alert_id : Option ℕ
  pub kind : String
  pub target : String
  pub ttl_sec : Option ℕ
  pub status : Status
  pub created_at : ℕ
  pub sent_at : Option ℕ
  pub acked_at : Option ℕ

abbrev pub has_status : Status → Status → Bool
has_status pending pending = true
has_status dispatched dispatched = true
has_status applied applied = true
has_status failed failed = true
has_status _ _ = false

-- UPDATE actions SET ... WHERE id = :id AND status = :status; `true` if a row was updated
unfoldable pub update_where : ℕ → Status → (Action → Action) → List Action → List Action × Bool
update_where id s f rows =
    let hit = λ (a : Action). nat_beq a.id id && has_status a.status s in
    (map (λ a. if hit a then f a else a) rows, any hit rows)

unfoldable pub write_action :
    ℕ → ℕ → ℕ → Option ℕ → String → String → Option ℕ → List Action → List Action
write_action new_id now host_id alert_id kind target ttl_sec rows =
    rows
    ++ record {
      id = new_id;
      host_id = some host_id;
      alert_id = alert_id;
      kind = kind;
      target = target;
      ttl_sec = ttl_sec;
      status = pending;
      created_at = now;
      sent_at = none;
      acked_at = none;
    }
      ∷ []

unfoldable pub mark_dispatched : ℕ → ℕ → List Action → List Action × Bool
unfolding update_where
mark_dispatched now id rows =
    update_where id pending (λ a. record a { status = dispatched; sent_at = some now }) rows

unfoldable pub mark_applied : ℕ → ℕ → List Action → List Action × Bool
unfolding update_where
mark_applied now id rows =
    update_where id dispatched (λ a. record a { status = applied; acked_at = some now }) rows

unfoldable pub mark_failed : ℕ → ℕ → List Action → List Action × Bool
unfolding update_where
mark_failed now id rows =
    update_where id dispatched (λ a. record a { status = failed; acked_at = some now }) rows

-- SELECT ... WHERE id = :id
unfoldable pub get_action : ℕ → List Action → Option Action
get_action id [] = none
get_action id (a ∷ rows) = if nat_beq a.id id then some a else get_action id rows
