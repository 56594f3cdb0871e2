-- ===== src/Sigma/FailClosed.antt =====
-- rule_engine/sigma.py: what a match shows, whatever the condition.
use zaqorincore.Prelude.{
  ◌≡◌, ◌↔◌, arith, String, Bool, true, false, [], ◌∷◌, ◌++◌, all, string_eq, ok,
}
use zaqorincore.Dict.{has}
use zaqorincore.Sigma.Values.{Event, Engine, match_selection}
use zaqorincore.Sigma.Conditions.{
  Condition, selection_only, and_not, and_any, and_any_not, unknown, read_condition,
}
use zaqorincore.Sigma.Rule.{Rule, match_filter, match_any, match_condition, known_filters, matches}

module _ (en : Engine) (ev : Event) (rule : Rule) where
  -- What a condition asks of the filters.
  abbrev pub FiltersAgree : Condition → Type 0
  FiltersAgree selection_only = Unit
  FiltersAgree (and_not name) = match_filter en ev rule name ≡ ok false
  FiltersAgree (and_any names) =
      (known_filters rule names ≡ true) × (match_any en ev rule names ≡ ok true)
  FiltersAgree (and_any_not names name) =
      (known_filters rule (names ++ name ∷ []) ≡ true)
      × (match_filter en ev rule name ≡ ok false)
      × (match_any en ev rule names ≡ ok true)
  FiltersAgree unknown = ⊥

  match_filter-has :
      (name : String) {b : Bool}
      → match_filter en ev rule name ≡ ok b
      → has name rule.detection ≡ true
  unfolding match_filter has
  match_filter-has name h = ground arith

  match_condition_iff :
      (c : Condition)
      → (match_condition en ev rule c ≡ ok true)
        ↔ ((match_selection en ev rule.selection ≡ ok true) × FiltersAgree c)
  unfolding match_condition
  match_condition_iff selection_only = ground arith
  match_condition_iff (and_not name) = ground (arith, match_filter-has name {b = false})
  match_condition_iff (and_any names) = ground arith
  match_condition_iff (and_any_not names name) = ground arith
  match_condition_iff unknown = ground arith

  -- A rule matches exactly if all its required fields are present, its selection matches and the
  -- filters agree with its condition; so a condition that is not understood never matches.
  pub matches_iff : (matches en rule ev ≡ ok true) ↔ (
      (all (λ field. has field ev.metadata) rule.required_fields ≡ true)
      × (match_selection en ev rule.selection ≡ ok true)
      × FiltersAgree (read_condition rule.condition))
  unfolding matches
  matches_iff = ground (arith, match_condition_iff (read_condition rule.condition))
