-- ===== src/Provision/Toml.antt =====
-- Values quoted by `_toml_quote`, read as TOML 1.0 reads a basic string.
use Prim.Native.Char.{Char, code}
use zaqorincore.Prelude.{
  ℕ, zero, suc, ◌+◌, ◌-◌, ◌*◌, ◌/◌, ◌%◌, ◌<◌, String, not, ◌&&◌, ◌||◌, Option, none, some, and_then,
  List, [], ◌∷◌, leb, ltb, nat_beq, nat_beq_iff, sym, append, if◌then◌else◌, ◌≡◌, refl, ◌∙◌, ap,
  arith, Bool-cases, inl, inr,
}
use zaqorincore.Provision.Quoting.{hex_digit, unicode_escape, toml_char, toml_chars, toml_quote}

-- The value of a hexadecimal digit.
unfoldable pub hex_value : ℕ → Option ℕ
hex_value c =
    if leb 48 c && leb c 57
    then some (c - 48)
    else if leb 65 c && leb c 70
    then some (c - 55)
    else if leb 97 c && leb c 102
    then some (c - 87)
    else none

abbrev pub add_code : ℕ → Option (List ℕ × String) → Option (List ℕ × String)
add_code c none = none
add_code c (some (cs, rest)) = some (c ∷ cs, rest)

-- Where the reader stands: in the string, behind a backslash, or before `more + 1` digits of an escape.
pub data Mode : Type 0 where
  inside behind : Mode
  digits : ℕ → ℕ → Mode

-- The code point of an escape of one letter.
unfoldable pub escape_value : ℕ → Option ℕ
escape_value c =
    if nat_beq c b'"'
    then some b'"'
    else if nat_beq c b'\\'
    then some b'\\'
    else if nat_beq c b'b'
    then some 8
    else if nat_beq c b't'
    then some 9
    else if nat_beq c b'n'
    then some 10
    else if nat_beq c b'f'
    then some 12
    else if nat_beq c b'r'
    then some 13
    else none

-- Up to the closing quote: the code points of the value, and the text behind the string.
unfoldable pub read_string : Mode → String → Option (List ℕ × String)
read_string m String.[] = none
read_string inside (String.◌∷◌ c s) =
    let next = read_string inside s in
    let escape = read_string behind s in
    if nat_beq (code c) b'"'
    then some ([], s)
    else if nat_beq (code c) b'\\'
    then escape
    else if (ltb (code c) 0x20 && not (nat_beq (code c) 9)) || nat_beq (code c) 0x7f
    then none
    else add_code (code c) next
read_string behind (String.◌∷◌ c s) =
    let next = read_string inside s in
    let short = read_string (digits 3 0) s in
    let long = read_string (digits 7 0) s in
    if nat_beq (code c) b'u'
    then short
    else if nat_beq (code c) b'U'
    then long
    else and_then (escape_value (code c)) (λ v. add_code v next)
read_string (digits zero v) (String.◌∷◌ c s) =
    let next = read_string inside s in
    and_then (hex_value (code c)) (λ d. add_code (v * 16 + d) next)
read_string (digits (suc n) v) (String.◌∷◌ c s) =
    and_then (hex_value (code c)) (λ d. read_string (digits n (v * 16 + d)) s)

unfoldable pub read_basic : String → Option (List ℕ × String)
unfolding read_string
read_basic String.[] = none
read_basic (String.◌∷◌ c s) = if nat_beq (code c) b'"' then read_string inside s else none

-- The code points of a text.
abbrev pub codes : String → List ℕ
codes String.[] = []
codes (String.◌∷◌ c s) = code c ∷ codes s

hex_value-hex_digit : (d : ℕ) → d < 16 → hex_value (code (hex_digit d)) ≡ some d
unfolding hex_value hex_digit
hex_value-hex_digit zero h = refl
hex_value-hex_digit (suc zero) h = refl
hex_value-hex_digit (suc (suc zero)) h = refl
hex_value-hex_digit (suc (suc (suc zero))) h = refl
hex_value-hex_digit (suc (suc (suc (suc zero)))) h = refl
hex_value-hex_digit (suc (suc (suc (suc (suc zero))))) h = refl
hex_value-hex_digit (suc (suc (suc (suc (suc (suc zero)))))) h = refl
hex_value-hex_digit (suc (suc (suc (suc (suc (suc (suc zero))))))) h = refl
hex_value-hex_digit (suc (suc (suc (suc (suc (suc (suc (suc zero)))))))) h = refl
hex_value-hex_digit (suc (suc (suc (suc (suc (suc (suc (suc (suc zero))))))))) h = refl
hex_value-hex_digit (suc (suc (suc (suc (suc (suc (suc (suc (suc (suc zero)))))))))) h = refl
hex_value-hex_digit (suc (suc (suc (suc (suc (suc (suc (suc (suc (suc (suc zero))))))))))) h = refl
hex_value-hex_digit (suc (suc (suc (suc (suc (suc (suc (suc (suc (suc (suc (suc zero)))))))))))) h =
    refl
hex_value-hex_digit
      (suc (suc (suc (suc (suc (suc (suc (suc (suc (suc (suc (suc (suc zero))))))))))))) h =
    refl
hex_value-hex_digit
      (suc (suc (suc (suc (suc (suc (suc (suc (suc (suc (suc (suc (suc (suc zero)))))))))))))) h =
    refl
hex_value-hex_digit
      (suc (suc (suc (suc (suc (suc (suc (suc (suc (suc (suc (suc (suc (suc (suc zero)))))))))))))))
      h =
    refl
hex_value-hex_digit
      (suc
        (suc (suc (suc (suc (suc (suc (suc (suc (suc (suc (suc (suc (suc (suc (suc d))))))))))))))))
      h =
    absurd (omega arith)

hex_sum :
    (n : ℕ)
    → n < 65536
    → ((((0 * 16 + n / 4096 % 16) * 16 + n / 256 % 16) * 16 + n / 16 % 16) * 16 + n % 16) ≡ n
hex_sum n h = omega arith

unicode_escape-read :
    (n : ℕ) (rest : String)
    → n < 65536
    → read_string inside (unicode_escape n rest) ≡ add_code n (read_string inside rest)
unfolding read_string unicode_escape
unicode_escape-read n rest h =
    rw
      (
        hex_value-hex_digit (n / 4096 % 16) (omega arith),
        hex_value-hex_digit (n / 256 % 16) (omega arith),
        hex_value-hex_digit (n / 16 % 16) (omega arith),
        hex_value-hex_digit (n % 16) (omega arith),
      )
      (ap (λ v. add_code v (read_string inside rest)) (hex_sum n h))

toml_char-read :
    (c : Char) (rest : String)
    → read_string inside (toml_char c rest) ≡ add_code (code c) (read_string inside rest)
unfolding read_string toml_char escape_value
toml_char-read c rest = elim (Bool-cases (nat_beq (code c) b'\\')) [
  | inl backslash ↦ rw backslash (
      ap (λ v. add_code v (read_string inside rest))
        (sym ((nat_beq_iff (code c) b'\\').0 backslash)))
  | inr e ↦ elim (Bool-cases (nat_beq (code c) b'"')) [
    | inl quote ↦
        rw (e, quote)
          (ap (λ v. add_code v (read_string inside rest))
            (sym ((nat_beq_iff (code c) b'"').0 quote)))
    | inr f ↦ elim (Bool-cases (ltb (code c) 0x20 || nat_beq (code c) 0x7f)) [
      | inl control ↦ rw (e, f, control) (unicode_escape-read (code c) rest (ground arith))
      | inr other ↦ rw (e, f, other) (ground arith)
    ]
  ]
]

toml_chars-read :
    (s rest : String)
    → read_string inside (toml_chars s (String.◌∷◌ "\"" rest)) ≡ some (codes s, rest)
unfolding toml_chars
toml_chars-read String.[] rest = unfold read_string in refl
toml_chars-read (String.◌∷◌ c s) rest =
    toml_char-read c (toml_chars s (String.◌∷◌ "\"" rest))
    ∙ ap (add_code (code c)) (toml_chars-read s rest)

toml_char-append :
    (c : Char) (s rest : String) → append (toml_char c s) rest ≡ toml_char c (append s rest)
unfolding toml_char unicode_escape append
toml_char-append c s rest = ground arith

toml_chars-append :
    (s rest : String) → append (toml_chars s "\"") rest ≡ toml_chars s (String.◌∷◌ "\"" rest)
unfolding toml_chars append
toml_chars-append String.[] rest = refl
toml_chars-append (String.◌∷◌ c s) rest =
    toml_char-append c (toml_chars s "\"") rest ∙ ap (toml_char c) (toml_chars-append s rest)

-- A value quoted for the configuration file reads back, as a TOML string, as that value: character
-- for character, whatever it holds, and whatever stands behind it.
pub toml_quote-read :
    (value rest : String) → read_basic (append (toml_quote value) rest) ≡ some (codes value, rest)
unfolding read_basic toml_quote append
toml_quote-read value rest =
    ap (read_string inside) (toml_chars-append value rest) ∙ toml_chars-read value rest
