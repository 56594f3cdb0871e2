-- ===== src/Sigma/Values.antt =====
-- rule_engine/sigma.py: placeholders, and one expected value of a selection against one event.
use zaqorincore.Prelude.{
  ◌≡◌, refl, ◌+◌, ℕ, zero, suc, String, Bool, true, false, not, ◌&&◌, ◌||◌, Option, none, some,
  List, [], ◌∷◌, leb, nat_beq, if◌then◌else◌, string_eq, ◌==◌, contains, append, has_prefix,
  has_part, has_suffix, is_empty, text_length, strip, partition, Result, ok, err, ◌>>=◌,
}
use Prim.Native.Char.{code}
use zaqorincore.Dict.{Dict, get}

-- ParsedEvent (detectors/base.py), its time aside.
pub record Event : Type 0 where
  pub event_id : String
  pub host_id : String
  pub source : String
  pub raw : String
  pub metadata : Dict String String

-- What the standard library's engines answer: `re.search(pattern, text)`, where `none` is an error in
-- the pattern, and `float(text)` with its comparisons, where `none` is the ValueError.
pub record Engine : Type 1 where
  pub search : String → String → Option Bool
  pub Number : Type 0
  pub float : String → Option Number
  pub ge : Number → Number → Bool
  pub lt : Number → Number → Bool

-- The exceptions of a match.
pub data Raised : Type 0 where
  pattern_error attribute_error key_error : Raised

-- A value of a selection; of a list its texts, since no other item equals a text, and likewise for
-- what is neither a text nor a list.
pub data Expected : Type 0 where
  text : String → Expected
  items : List String → Expected
  other : Expected

abbrev pub Selection : Type 0
Selection = Dict String Expected

abbrev pub drop_text : ℕ → String → String
drop_text zero s = s
drop_text (suc n) String.[] = String.[]
drop_text (suc n) (String.◌∷◌ c s) = drop_text n s

-- [a-zA-Z0-9_]
abbrev pub is_word : ℕ → Bool
is_word c =
    (leb 48 c && leb c 57) || (leb 65 c && leb c 90) || (leb 97 c && leb c 122) || nat_beq c 95

-- The longest start of word characters, and the rest.
unfoldable pub take_word : String → String × String
take_word String.[] = (String.[], String.[])
take_word (String.◌∷◌ c s) =
    let (word, rest) = take_word s in
    if is_word (code c) then (String.◌∷◌ c word, rest) else (String.[], String.◌∷◌ c s)

-- The name in a placeholder at the start of the text.
unfoldable pub placeholder : String → Option String
unfolding take_word has_prefix
placeholder s =
    let (word, rest) = take_word (drop_text 2 s) in
    if has_prefix s "{{" && not (is_empty word) && has_prefix rest "}}" then some word else none

abbrev written : String → Option String → String
written key none = append "{{" (append key "}}")
written key (some value) = value

-- `_interpolate`; the number says how many characters of a placeholder are still to pass over.
unfoldable pub interpolate_from : Dict String String → ℕ → String → String
unfolding placeholder append get
interpolate_from m n String.[] = String.[]
interpolate_from m (suc n) (String.◌∷◌ c s) = interpolate_from m n s
interpolate_from m zero (String.◌∷◌ c s) = elim (placeholder (String.◌∷◌ c s)) [
  | none ↦ String.◌∷◌ c (interpolate_from m 0 s)
  | some key ↦ append (written key (get key m)) (interpolate_from m (text_length key + 3) s)
]

unfoldable pub interpolate : String → Dict String String → String
unfolding interpolate_from
interpolate template m = interpolate_from m 0 template

-- What follows the first `|`, in its two parts around the first `:`.
unfoldable pub modifier_of : String → String × Bool × String
unfolding partition
modifier_of value =
    let (field, bar, spec) = partition b'|' value in
    let (modifier, colon, literal) = partition b':' spec in (modifier, bar && colon, literal)

unfoldable pub is_modifier_value : String → Bool
unfolding modifier_of
is_modifier_value value =
    let (modifier, found, literal) = modifier_of value in
    found && contains modifier ("startswith" ∷ "endswith" ∷ "ge" ∷ "lt" ∷ [])

abbrev both : {A : Type 0} → (A → A → Bool) → Option A → Option A → Bool
both f none b = false
both f (some a) none = false
both f (some a) (some b) = f a b

unfoldable pub match_modifier : Engine → String → String → Bool
unfolding modifier_of has_prefix has_suffix strip
match_modifier en actual value =
    let (modifier, found, literal) = modifier_of value in
    let lit = strip literal in
    if modifier == "startswith"
    then has_prefix actual lit
    else if modifier == "endswith"
    then has_suffix actual lit
    else if modifier == "ge"
    then both en.ge (en.float actual) (en.float lit)
    else if modifier == "lt"
    then both en.lt (en.float actual) (en.float lit)
    else false

abbrev or_pattern_error : Option Bool → Result Raised Bool
or_pattern_error none = err pattern_error
or_pattern_error (some b) = ok b

-- One value of the selection against the event's.
unfoldable pub match_value : Engine → Event → String → Expected → Result Raised Bool
unfolding is_modifier_value match_modifier has_prefix has_part
match_value en ev actual (items xs) = ok (contains actual xs)
match_value en ev actual (text e) =
    if is_modifier_value e
    then ok (match_modifier en actual e)
    else if has_prefix e "re:"
    then or_pattern_error (en.search (drop_text 3 e) actual)
    else if has_prefix e "contains:"
    then ok (has_part actual (drop_text 9 e) || has_part ev.raw (drop_text 9 e))
    else ok (actual == e)
match_value en ev actual other = ok false

abbrev or_source : Event → String → Option String → Option String
or_source ev key (some v) = some v
or_source ev key none = if key == "source" then some ev.source else none

unfoldable pub actual_of : Event → String → Option String
unfolding get
actual_of ev key = or_source ev key (get key ev.metadata)

unfoldable pub match_selection : Engine → Event → Selection → Result Raised Bool
unfolding actual_of match_value
match_selection en ev [] = ok true
match_selection en ev ((key, expected) ∷ rest) =
    let later = match_selection en ev rest in
    elim (actual_of ev key) [
      | none ↦ ok false
      | some actual ↦ match_value en ev actual expected >>= λ b. if b then later else ok false
    ]

interpolate_example :
    interpolate "x {{{ip}} {{no}} {{a-b}}" (("ip", "1.2.3.4") ∷ []) ≡ "x {1.2.3.4 {{no}} {{a-b}}"
unfolding interpolate
interpolate_example = refl
