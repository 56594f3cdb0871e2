-- ===== src/Provision/Shell.antt =====
-- Commands quoted by `shlex.quote`, split into words as a POSIX shell does.
use Prim.Native.Char.{Char, code}
use text.Mathlib.TextEquality.{Char-path}
use zaqorincore.Prelude.{
  append_empty, String, true, false, Option, none, some, List, [], ◌∷◌, map, nat_beq, nat_beq_iff,
  contains, nat_eq, all_chars, append, if◌then◌else◌, ◌≡◌, refl, sym, ◌∙◌, ap, arith, Bool-cases,
  inl, inr,
}
use zaqorincore.Provision.Quoting.{is_shell_safe, shell_chars, shell_quote, join}

-- Where the reader stands: between words, in a word, or in quotes of one kind.
pub data Place : Type 0 where
  between within single double : Place

abbrev pub add_char : Char → Option (List String) → Option (List String)
add_char c none = none
add_char c (some []) = none
add_char c (some (w ∷ ws)) = some (String.◌∷◌ c w ∷ ws)

abbrev pub new_word : Option (List String) → Option (List String)
new_word none = none
new_word (some ws) = some ("" ∷ ws)

-- The words of a command, of which the first one goes on where the reader stands in a word. It has no
-- result for unclosed quotes and for all that is more than words: operators, expansions, comments and
-- backslashes.
unfoldable pub shell_words : Place → String → Option (List String)
shell_words between String.[] = some []
shell_words within String.[] = some ("" ∷ [])
shell_words single String.[] = none
shell_words double String.[] = none
shell_words between (String.◌∷◌ c s) =
    let space = shell_words between s in
    let quoted = shell_words single s in
    let doubled = shell_words double s in
    let more = shell_words within s in
    if nat_beq (code c) b' '
    then space
    else if nat_beq (code c) b'\''
    then quoted
    else if nat_beq (code c) b'"'
    then doubled
    else if is_shell_safe (code c)
    then add_char c more
    else none
shell_words within (String.◌∷◌ c s) =
    let space = shell_words between s in
    let quoted = shell_words single s in
    let doubled = shell_words double s in
    let more = shell_words within s in
    if nat_beq (code c) b' '
    then new_word space
    else if nat_beq (code c) b'\''
    then quoted
    else if nat_beq (code c) b'"'
    then doubled
    else if is_shell_safe (code c)
    then add_char c more
    else none
shell_words single (String.◌∷◌ c s) =
    let more = shell_words within s in
    let next = shell_words single s in if nat_beq (code c) b'\'' then more else add_char c next
shell_words double (String.◌∷◌ c s) =
    let more = shell_words within s in
    let next = shell_words double s in
    if nat_beq (code c) b'"'
    then more
    else if contains (code c) (b'$' ∷ b'`' ∷ b'\\' ∷ [])
    then none
    else add_char c next

-- A text in front of the word that goes on.
abbrev add_text : String → Option (List String) → Option (List String)
add_text String.[] ws = ws
add_text (String.◌∷◌ c s) ws = add_char c (add_text s ws)

safe-plain :
    (c : Char)
    → is_shell_safe (code c) ≡ true
    → (nat_beq (code c) b' ' ≡ false)
      × (nat_beq (code c) b'\'' ≡ false)
      × (nat_beq (code c) b'"' ≡ false)
unfolding is_shell_safe
safe-plain c h = (ground arith, ground arith, ground arith)

within-safe :
    (s rest : String)
    → all_chars is_shell_safe s ≡ true
    → shell_words within (append s rest) ≡ add_text s (shell_words within rest)
unfolding shell_words append
within-safe String.[] rest h = refl
within-safe (String.◌∷◌ c s) rest h = elim (Bool-cases (is_shell_safe (code c))) [
  | inl safe ↦
      let (space, quote, mark) = safe-plain c safe in
      rw (space, quote, mark, safe) (ap (add_char c) (within-safe s rest (ground (arith, h, safe))))
  | inr e ↦ cc (h, e)
]

single-chars :
    (s rest : String)
    → shell_words single (append (shell_chars s "'") rest) ≡ add_text s (shell_words within rest)
unfolding shell_words shell_chars append
single-chars String.[] rest = refl
single-chars (String.◌∷◌ c s) rest = elim (Bool-cases (nat_beq (code c) b'\'')) [
  | inl e ↦ rw e (
      ap (λ d. add_char d (shell_words single (append (shell_chars s "'") rest)))
        (Char-path "'" c (sym ((nat_beq_iff (code c) b'\'').0 e)))
      ∙ ap (add_char c) (single-chars s rest))
  | inr e ↦ rw (e, e) (ap (add_char c) (single-chars s rest))
]

between-safe :
    (c : Char) (s rest : String)
    → all_chars is_shell_safe (String.◌∷◌ c s) ≡ true
    → shell_words between (String.◌∷◌ c (append s rest))
      ≡ add_char c (add_text s (shell_words within rest))
unfolding shell_words
between-safe c s rest h = elim (Bool-cases (is_shell_safe (code c))) [
  | inl safe ↦
      let (space, quote, mark) = safe-plain c safe in
      rw (space, quote, mark, safe) (ap (add_char c) (within-safe s rest (ground (arith, h, safe))))
  | inr e ↦ cc (h, e)
]

-- A quoted text is one word.
pub between-shell_quote :
    (s rest : String)
    → shell_words between (append (shell_quote s) rest) ≡ add_text s (shell_words within rest)
unfolding shell_quote shell_words append
between-shell_quote String.[] rest = refl
between-shell_quote (String.◌∷◌ c s) rest =
    elim (Bool-cases (all_chars is_shell_safe (String.◌∷◌ c s))) [
      | inl safe ↦ rw safe (between-safe c s rest safe)
      | inr e ↦ rw e (single-chars (String.◌∷◌ c s) rest)
    ]

add_text-some :
    (s w : String) (ws : List String) → add_text s (some (w ∷ ws)) ≡ some (append s w ∷ ws)
unfolding append
add_text-some String.[] w ws = refl
add_text-some (String.◌∷◌ c s) w ws = ap (add_char c) (add_text-some s w ws)

-- A quoted word at the end of a command.
shell_quote-last : (s : String) → shell_words between (shell_quote s) ≡ some (s ∷ [])
unfolding shell_words
shell_quote-last s =
    ap (shell_words between) (sym (append_empty (shell_quote s)))
    ∙ between-shell_quote s ""
    ∙ within-end s
  where
    within-end : (t : String) → add_text t (shell_words within "") ≡ some (t ∷ [])
    within-end t = add_text-some t "" [] ∙ ap (λ x. some (x ∷ [])) (append_empty t)

-- A quoted word, a space and the rest of the command.
shell_quote-next :
    (s rest : String) (words : List String)
    → shell_words between rest ≡ some words
    → shell_words between (append (shell_quote s) (append " " rest)) ≡ some (s ∷ words)
unfolding shell_words append
shell_quote-next s rest words h =
    between-shell_quote s (append " " rest)
    ∙ ap (add_text s) within-space
    ∙ add_text-some s "" words
    ∙ ap (λ x. some (x ∷ words)) (append_empty s)
  where
    within-space : shell_words within (append " " rest) ≡ some ("" ∷ words)
    within-space = ap new_word h

-- Arguments that are quoted and joined by spaces are read as these arguments.
pub join-shell_quote :
    (args : List String) → shell_words between (join " " (map shell_quote args)) ≡ some args
unfolding join shell_words
join-shell_quote [] = refl
join-shell_quote (a ∷ []) = shell_quote-last a
join-shell_quote (a ∷ b ∷ args) =
    shell_quote-next a (join " " (map shell_quote (b ∷ args))) (b ∷ args)
      (join-shell_quote (b ∷ args))
