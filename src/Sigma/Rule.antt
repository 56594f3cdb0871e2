-- ===== src/Sigma/Rule.antt =====
-- rule_engine/sigma.py: CompiledSigmaRule, its condition, and what it renders.
use zaqorincore.Prelude.{
  ℕ, String, Bool, true, false, not, ◌||◌, Option, none, some, List, [], ◌∷◌, ◌++◌, all,
  if◌then◌else◌, string_eq, and_then, is_empty, Result, ok, err, ◌>>=◌,
}
use zaqorincore.Prelude.Int.{ℤ, int}
use zaqorincore.Dict.{Dict, get, has}
use zaqorincore.Sigma.Conditions.{
  Condition, selection_only, and_not, and_any, and_any_not, unknown, read_condition,
}
use zaqorincore.Sigma.Values.{
  Event, Engine, Raised, attribute_error, key_error, Selection, interpolate, match_selection,
}

-- An entry of `detection`: a mapping, or something else, such as the text of the condition.
pub data Block : Type 0 where
  mapping : Selection → Block
  scalar : Block

pub data Ttl : Type 0 where
  absent : Ttl
  seconds : ℤ → Ttl
  template : String → Ttl

-- The action block of a rule; a missing target is the empty text.
pub record ActionBlock : Type 0 where
  pub kind : Option String
  pub target : String
  pub ttl_sec : Ttl

-- The count and the times are not negative.
pub record Rule : Type 0 where
  pub id : String
  pub title : String
  pub level : String
  pub selection : Selection
  pub detection : Dict String Block
  pub condition : String
  pub count : ℕ
  pub timeframe_sec : ℕ
  pub cooldown_sec : ℕ
  pub dedup_key : String
  pub action : Option ActionBlock
  pub required_fields : List String

abbrev pub match_found : Engine → Event → Option Block → Result Raised Bool
match_found en ev none = err key_error
match_found en ev (some scalar) = err attribute_error
match_found en ev (some (mapping s)) = match_selection en ev s

-- _match_selection(event, self.detection[name])
unfoldable pub match_filter : Engine → Event → Rule → String → Result Raised Bool
unfolding get match_selection
match_filter en ev rule name = match_found en ev (get name rule.detection)

unfoldable pub match_any : Engine → Event → Rule → List String → Result Raised Bool
match_any en ev rule [] = ok false
match_any en ev rule (name ∷ names) =
    let later = match_any en ev rule names in
    match_filter en ev rule name >>= λ b. if b then ok true else later

abbrev pub known_filters : Rule → List String → Bool
known_filters rule names = all (λ name. has name rule.detection) names

unfoldable pub match_condition : Engine → Event → Rule → Condition → Result Raised Bool
unfolding match_selection match_filter match_any has
match_condition en ev rule selection_only = match_selection en ev rule.selection
match_condition en ev rule (and_not name) =
    if has name rule.detection
    then (match_selection en ev rule.selection >>= λ b.
        if b then (match_filter en ev rule name >>= λ c. ok (not c)) else ok false)
    else ok false
match_condition en ev rule (and_any names) =
    if known_filters rule names
    then (match_selection en ev rule.selection >>= λ b.
        if b then match_any en ev rule names else ok false)
    else ok false
match_condition en ev rule (and_any_not names name) =
    if known_filters rule (names ++ name ∷ [])
    then (match_selection en ev rule.selection >>= λ b.
        if b
        then (match_filter en ev rule name >>= λ c.
            if c then ok false else match_any en ev rule names)
        else ok false)
    else ok false
match_condition en ev rule unknown = ok false

unfoldable pub matches : Engine → Rule → Event → Result Raised Bool
unfolding match_condition read_condition has
matches en rule ev =
    if all (λ field. has field ev.metadata) rule.required_fields
    then match_condition en ev rule (read_condition rule.condition)
    else ok false

pub record Rendered : Type 0 where
  pub kind : String
  pub target : String
  pub ttl_sec : Option ℤ

unfoldable pub render_ttl : Event → Ttl → Option ℤ
unfolding int interpolate
render_ttl ev absent = none
render_ttl ev (seconds n) = some n
render_ttl ev (template t) = int (interpolate t ev.metadata)

abbrev render_block : Event → ActionBlock → Option String → Option Rendered
render_block ev a none = none
render_block ev a (some kind) =
    let target = interpolate a.target ev.metadata in
    if is_empty kind || is_empty target
    then none
    else some (record { kind = kind; target = target; ttl_sec = render_ttl ev a.ttl_sec })

unfoldable pub render_action : Rule → Event → Option Rendered
unfolding interpolate render_ttl
render_action rule ev = and_then rule.action (λ a. render_block ev a a.kind)

abbrev or_id : String → String → String
or_id id s = if is_empty s then id else s

unfoldable pub render_dedup_key : Rule → Event → String
unfolding interpolate
render_dedup_key rule ev =
    if is_empty rule.dedup_key
    then rule.id
    else or_id rule.id (interpolate rule.dedup_key ev.metadata)
