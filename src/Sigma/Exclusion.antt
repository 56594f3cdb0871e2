-- ===== src/Sigma/Exclusion.antt =====
-- rule_engine/sigma.py: what the text `selection and not <filter>` of a rule's condition means.
use zaqorincore.Prelude.{
  ◌≡◌, ◌↔◌, refl, ap, ◌∙◌, arith, ℕ, suc, String, true, false, Option, none, some, List, [], ◌∷◌,
  all, all_chars, and_then, append, has_prefix, is_empty, is_space, nat_beq, text_length, strip,
  strip_start, strip_end, string_eq, ◌==◌, ==_iff, ok, Bool-cases, inl, inr,
}
use Prim.Native.Char.{code}
use zaqorincore.Dict.{has, get}
use zaqorincore.Sigma.Values.{Event, Engine, Selection, drop_text, is_word, match_selection}
use zaqorincore.Sigma.Conditions.{
  and_not, drop_prefix, after_spaces, skip_words, whole_word, read_not, read_condition,
}
use zaqorincore.Sigma.Rule.{Block, mapping, scalar, Rule, match_found, match_filter, matches}
use mathlib.Core.Path.{subst, sym}
use zaqorincore.Sigma.FailClosed.{FiltersAgree, matches_iff}

nat_beq_refl : (n : ℕ) → nat_beq n n ≡ true
nat_beq_refl n = ground arith

word-not_space : (n : ℕ) → is_word n ≡ true → is_space n ≡ false
unfolding is_space
word-not_space n h = ground arith

-- A name that `\w+` reads.
abbrev pub IsName : String → Type 0
IsName name = (is_empty name ≡ false) × (all_chars is_word name ≡ true)

strip_end-word : (w : String) → all_chars is_word w ≡ true → strip_end w ≡ w
unfolding strip_end
strip_end-word String.[] h = refl
strip_end-word (String.◌∷◌ c w) h =
    rw (word-not_space (code c) (ground (arith, h)))
      (ap (String.◌∷◌ c) (strip_end-word w (ground (arith, h))))

has_prefix-append : (p t : String) → has_prefix (append p t) p ≡ true
unfolding append has_prefix
has_prefix-append String.[] t = refl
has_prefix-append (String.◌∷◌ c p) t = rw (nat_beq_refl (code c)) (has_prefix-append p t)

drop_text-append : (p t : String) → drop_text (text_length p) (append p t) ≡ t
unfolding append
drop_text-append String.[] t = refl
drop_text-append (String.◌∷◌ c p) t = drop_text-append p t

drop_prefix-append : (p t : String) → drop_prefix p (append p t) ≡ some t
unfolding drop_prefix
drop_prefix-append p t = rw (has_prefix-append p t, drop_text-append p t) refl

longer : (n : ℕ) → nat_beq n (suc n) ≡ false
longer n = ground arith

after_spaces-one : (t : String) → strip_start t ≡ t → after_spaces (String.◌∷◌ " " t) ≡ some t
unfolding after_spaces strip_start is_space
after_spaces-one t h = rw (h, longer (text_length t)) refl

skip_words-append :
    (w : String) (ws : List String) (t : String)
    → strip_start t ≡ t
    → skip_words (w ∷ ws) (append w (String.◌∷◌ " " t)) ≡ skip_words ws t
unfolding skip_words
skip_words-append w ws t h = rw (drop_prefix-append w (String.◌∷◌ " " t), after_spaces-one t h) refl

-- The condition `selection and not <name>`.
abbrev pub excluding : String → String
excluding name = append "selection and not " name

name-not_blank : (name : String) → IsName name → strip_start name ≡ name
unfolding strip_start
name-not_blank String.[] named = refl
name-not_blank (String.◌∷◌ c w) named = rw (word-not_space (code c) (ground (arith, named.1))) refl

whole_word-name :
    (name : String)
    → IsName name
    → and_then (whole_word name) (λ n. some (and_not n)) ≡ some (and_not name)
unfolding whole_word
whole_word-name name named = rw (named.0, named.1) refl

read_not-excluding : (name : String) → IsName name → read_not (excluding name) ≡ some (and_not name)
unfolding read_not append strip_start is_space
read_not-excluding name named =
    let blank = name-not_blank name named in
    rw
      (
        skip_words-append "selection" ("and" ∷ "not" ∷ []) (append "and not " name) refl,
        skip_words-append "and" ("not" ∷ []) (append "not " name) refl,
        skip_words-append "not" [] name blank,
      )
      (whole_word-name name named)

strip-excluding : (name : String) → IsName name → strip (excluding name) ≡ excluding name
unfolding strip strip_start strip_end append is_space
strip-excluding String.[] named = cc named.0
strip-excluding (String.◌∷◌ c w) named =
    rw
      (
        word-not_space (code c) (ground (arith, named.1)),
        strip_end-word w (ground (arith, named.1)),
      )
      refl

excluding-not_selection : (name : String) → IsName name → (excluding name == "selection") ≡ false
unfolding append
excluding-not_selection name named = elim (Bool-cases (excluding name == "selection")) [
  | inr e ↦ e
  | inl e ↦
      let same = ap text_length ((==_iff (excluding name) "selection").0 e) in
      absurd (omega (arith, same))
]

read_condition-excluding :
    (name : String) → IsName name → read_condition (excluding name) ≡ and_not name
unfolding read_condition
read_condition-excluding name named =
    rw
      (
        excluding-not_selection name named,
        ap read_not (strip-excluding name named) ∙ read_not-excluding name named,
      )
      refl

-- The filter of that name is a table that does not match.
pub record Excludes (en : Engine) (ev : Event) (rule : Rule) (name : String) : Type 0 where
  pub block : Selection
  pub found : get name rule.detection ≡ some (mapping block)
  pub fails : match_selection en ev block ≡ ok false

match_filter-Excludes :
    (en : Engine) (ev : Event) (rule : Rule) (name : String)
    → (match_filter en ev rule name ≡ ok false) ↔ Excludes en ev rule name
unfolding match_filter
match_filter-Excludes en ev rule name = (to (get name rule.detection) refl, from)
  where
    to :
        (o : Option Block)
        → get name rule.detection ≡ o
        → match_found en ev o ≡ ok false
        → Excludes en ev rule name
    to none e h = cc h
    to (some scalar) e h = cc h
    to (some (mapping block)) e h = record { block = block; found = e; fails = h }

    from : Excludes en ev rule name → match_found en ev (get name rule.detection) ≡ ok false
    from x = rw x.found x.fails

-- A rule with the condition `selection and not <name>`, for a name of word characters, matches exactly
-- if all its required fields are present, its selection matches and its detection has a table of that
-- name that does not match.
pub matches-Excludes :
    (en : Engine) (ev : Event) (rule : Rule) (name : String)
    → IsName name
    → rule.condition ≡ excluding name
    → (matches en rule ev ≡ ok true) ↔ (
        (all (λ field. has field ev.metadata) rule.required_fields ≡ true)
        × (match_selection en ev rule.selection ≡ ok true)
        × Excludes en ev rule name)
matches-Excludes en ev rule name named written =
    let reads = ap read_condition written ∙ read_condition-excluding name named in
    let iff = matches_iff en ev rule in
    let agrees = match_filter-Excludes en ev rule name in
    (
      λ h.
          let (fields, selected, filtered) = iff.0 h in
          (fields, selected, agrees.0 (subst (FiltersAgree en ev rule) reads filtered)),
      λ h. iff.1 (h.0, h.1, subst (FiltersAgree en ev rule) (sym reads) (agrees.1 h.2)),
    )
