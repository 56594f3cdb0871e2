-- ===== src/Sigma/Conditions.antt =====
-- rule_engine/sigma.py: the patterns of a rule's condition in `CompiledSigmaRule.matches`.
use zaqorincore.Prelude.{
  ◌≡◌, refl, ◌-◌, ℕ, zero, suc, String, not, ◌&&◌, Option, none, some, List, [], ◌∷◌, map, nat_beq,
  if◌then◌else◌, string_eq, ◌==◌, and_then, append, has_prefix, is_empty, text_length, strip,
  strip_start, partition, push_first, all_chars,
}
use zaqorincore.Sigma.Values.{drop_text, is_word}

-- The patterns of a condition.
pub data Condition : Type 0 where
  selection_only : Condition
  and_not : String → Condition
  and_any : List String → Condition
  and_any_not : List String → String → Condition
  unknown : Condition

unfoldable pub drop_prefix : String → String → Option String
unfolding has_prefix
drop_prefix p s = if has_prefix s p then some (drop_text (text_length p) s) else none

-- \s+
unfoldable pub after_spaces : String → Option String
unfolding strip_start
after_spaces s =
    let rest = strip_start s in
    if nat_beq (text_length rest) (text_length s) then none else some rest

-- The words, each followed by white space.
unfoldable pub skip_words : List String → String → Option String
unfolding drop_prefix after_spaces
skip_words [] s = some s
skip_words (w ∷ ws) s =
    and_then (drop_prefix w s) (λ t. and_then (after_spaces t) (λ u. skip_words ws u))

-- (\w+) up to the end, for ASCII
unfoldable pub whole_word : String → Option String
whole_word s = if not (is_empty s) && all_chars is_word s then some s else none

-- s.split(sep); the number says how many characters of a separator are still to pass over.
unfoldable pub split_text : String → ℕ → String → List String
unfolding has_prefix append
split_text sep n String.[] = "" ∷ []
split_text sep (suc n) (String.◌∷◌ c s) = split_text sep n s
split_text sep zero (String.◌∷◌ c s) =
    let hit = has_prefix (String.◌∷◌ c s) sep in
    let rest = split_text sep (if hit then text_length sep - 1 else 0) s in
    if hit then "" ∷ rest else push_first (String.◌∷◌ c String.[]) rest

filter_names : String → List String
unfolding split_text strip
filter_names inner = map strip (split_text " or " 0 inner)

-- selection\s+and\s+not\s+(\w+)
unfoldable pub read_not : String → Option Condition
unfolding skip_words whole_word
read_not s =
    and_then (skip_words ("selection" ∷ "and" ∷ "not" ∷ []) s)
      (λ rest. and_then (whole_word rest) (λ name. some (and_not name)))

-- What may follow the parenthesis: nothing, or \s+and\s+not\s+(\w+).
read_tail : List String → String → Option Condition
unfolding after_spaces skip_words whole_word
read_tail names rest =
    if is_empty rest
    then some (and_any names)
    else and_then (after_spaces rest) (λ t.
      and_then (skip_words ("and" ∷ "not" ∷ []) t)
        (λ u. and_then (whole_word u) (λ name. some (and_any_not names name))))

-- selection\s+and\s+\(([^)]+)\), with or without what may follow
unfoldable pub read_any : String → Option Condition
unfolding skip_words drop_prefix partition filter_names read_tail
read_any s = and_then (skip_words ("selection" ∷ "and" ∷ []) s) (λ t.
    and_then (drop_prefix "(" t) (λ u.
      let (inner, closed, rest) = partition b')' u in
      if closed && not (is_empty inner) then read_tail (filter_names inner) rest else none))

abbrev or_else : Option Condition → Option Condition → Condition
or_else (some c) o = c
or_else none (some c) = c
or_else none none = unknown

unfoldable pub read_condition : String → Condition
unfolding strip read_not read_any
read_condition cond =
    if cond == "selection"
    then selection_only
    else or_else (read_not (strip cond)) (read_any (strip cond))

condition_example :
    read_condition " selection and (a or b) and not c" ≡ and_any_not ("a" ∷ "b" ∷ []) "c"
unfolding read_condition
condition_example = refl
