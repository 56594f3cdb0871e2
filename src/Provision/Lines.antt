-- ===== src/Provision/Lines.antt =====
-- Lines of texts that are joined from parts: what `split` reads back, and ends without a newline.
use Prim.Native.Char.{Char, code}
use zaqorincore.Prelude.{
  ℕ, zero, suc, ltb, ◌/◌, ◌%◌, String, Bool, true, false, not, ◌||◌, List, [], ◌∷◌, ◌++◌, nat_beq,
  append, has_char, split, push_first, ◌≡◌, refl, sym, ◌∙◌, ap, arith, Bool-cases, inl, inr,
}
use zaqorincore.Provision.Quoting.{
  last_is, hex_digit, unicode_escape, toml_chars, toml_char, toml_quote,
}
use zaqorincore.Provision.Template.{strip_newlines}

split-cons : (s : String) → (p : String) × (ps : List String) × (split b'\n' s ≡ p ∷ ps)
unfolding split
split-cons String.[] = ("", [], refl)
split-cons (String.◌∷◌ c s) = elim (Bool-cases (nat_beq (code c) b'\n')) [
  | inl e ↦ ("", split b'\n' s, rw e refl)
  | inr e ↦ let (p, ps, h) = split-cons s in (append (String.◌∷◌ c "") p, ps, rw (e, h) refl)
]

push_first-++ :
    (c : String) (l rest : List String) {p : String} {ps : List String}
    → l ≡ p ∷ ps
    → push_first c l ++ rest ≡ push_first c (l ++ rest)
push_first-++ c [] rest h = cc h
push_first-++ c (q ∷ qs) rest h = refl

-- The lines of two texts with a newline between them.
pub split-append :
    (s t : String) → split b'\n' (append s (append "\n" t)) ≡ split b'\n' s ++ split b'\n' t
unfolding split append
split-append String.[] t = refl
split-append (String.◌∷◌ c s) t = elim (Bool-cases (nat_beq (code c) b'\n')) [
  | inl e ↦ rw e (ap (◌∷◌ "") (split-append s t))
  | inr e ↦
      let (p, ps, h) = split-cons s in
      rw (e, split-append s t)
        (sym (push_first-++ (String.◌∷◌ c "") (split b'\n' s) (split b'\n' t) (h)))
]

-- A text without newlines is one line.
pub split-plain : (s : String) → has_char b'\n' s ≡ false → split b'\n' s ≡ s ∷ []
unfolding split has_char
split-plain String.[] h = refl
split-plain (String.◌∷◌ c s) h = rw (split-plain s (ground (arith, h))) (ground (arith, h))

pub has_char-append :
    (d : ℕ) (s t : String) → has_char d (append s t) ≡ (has_char d s || has_char d t)
unfolding has_char append
has_char-append d String.[] t = refl
has_char-append d (String.◌∷◌ c s) t = rw (has_char-append d s t) (ground arith)

-- The text ends with another character than a newline.
abbrev pub ends_plain : String → Bool
ends_plain s = last_is (λ c. not (nat_beq c b'\n')) s

ends_plain-cons : (c : Char) (s : String) → ends_plain s ≡ true → ends_plain (String.◌∷◌ c s) ≡ true
unfolding last_is
ends_plain-cons c String.[] h = cc h
ends_plain-cons c (String.◌∷◌ d s) h = h

pub ends_plain-append : (s t : String) → ends_plain t ≡ true → ends_plain (append s t) ≡ true
unfolding append
ends_plain-append String.[] t h = h
ends_plain-append (String.◌∷◌ c s) t h = ends_plain-cons c (append s t) (ends_plain-append s t h)

pub strip_newlines-plain : (s : String) → ends_plain s ≡ true → strip_newlines s ≡ s
unfolding strip_newlines last_is
strip_newlines-plain String.[] h = refl
strip_newlines-plain (String.◌∷◌ c String.[]) h = ground (arith, h)
strip_newlines-plain (String.◌∷◌ c (String.◌∷◌ d s)) h =
    rw (strip_newlines-plain (String.◌∷◌ d s) h) refl

pub strip_newlines-newline : (s : String) → strip_newlines (append s "\n") ≡ strip_newlines s
unfolding strip_newlines append
strip_newlines-newline String.[] = refl
strip_newlines-newline (String.◌∷◌ c s) = rw (strip_newlines-newline s) refl

hex_digit-plain : (d : ℕ) → nat_beq (code (hex_digit d)) b'\n' ≡ false
unfolding hex_digit
hex_digit-plain zero = refl
hex_digit-plain (suc zero) = refl
hex_digit-plain (suc (suc zero)) = refl
hex_digit-plain (suc (suc (suc zero))) = refl
hex_digit-plain (suc (suc (suc (suc zero)))) = refl
hex_digit-plain (suc (suc (suc (suc (suc zero))))) = refl
hex_digit-plain (suc (suc (suc (suc (suc (suc zero)))))) = refl
hex_digit-plain (suc (suc (suc (suc (suc (suc (suc zero))))))) = refl
hex_digit-plain (suc (suc (suc (suc (suc (suc (suc (suc zero)))))))) = refl
hex_digit-plain (suc (suc (suc (suc (suc (suc (suc (suc (suc zero))))))))) = refl
hex_digit-plain (suc (suc (suc (suc (suc (suc (suc (suc (suc (suc zero)))))))))) = refl
hex_digit-plain (suc (suc (suc (suc (suc (suc (suc (suc (suc (suc (suc zero))))))))))) = refl
hex_digit-plain (suc (suc (suc (suc (suc (suc (suc (suc (suc (suc (suc (suc zero)))))))))))) = refl
hex_digit-plain (suc (suc (suc (suc (suc (suc (suc (suc (suc (suc (suc (suc (suc zero))))))))))))) =
    refl
hex_digit-plain
      (suc (suc (suc (suc (suc (suc (suc (suc (suc (suc (suc (suc (suc (suc zero)))))))))))))) =
    refl
hex_digit-plain
      (suc (suc (suc (suc (suc (suc (suc (suc (suc (suc (suc (suc (suc (suc (suc d))))))))))))))) =
    refl

has_char-toml_char :
    (c : Char) (rest : String) → has_char b'\n' (toml_char c rest) ≡ has_char b'\n' rest
unfolding has_char toml_char unicode_escape
has_char-toml_char c rest = elim (Bool-cases (nat_beq (code c) b'\\')) [
  | inl e ↦ rw e refl
  | inr e ↦ elim (Bool-cases (nat_beq (code c) b'"')) [
    | inl f ↦ rw (e, f) refl
    | inr f ↦ elim (Bool-cases (ltb (code c) 0x20 || nat_beq (code c) 0x7f)) [
      | inl g ↦
          rw
            (
              e,
              f,
              g,
              hex_digit-plain (code c / 4096 % 16),
              hex_digit-plain (code c / 256 % 16),
              hex_digit-plain (code c / 16 % 16),
              hex_digit-plain (code c % 16),
            )
            refl
      | inr g ↦ rw (e, f, g) (ground (arith, g))
    ]
  ]
]

has_char-toml_chars : (s rest : String) → has_char b'\n' (toml_chars s rest) ≡ has_char b'\n' rest
unfolding toml_chars
has_char-toml_chars String.[] rest = refl
has_char-toml_chars (String.◌∷◌ c s) rest =
    has_char-toml_char c (toml_chars s rest) ∙ has_char-toml_chars s rest

-- A quoted value has no newline.
pub has_char-toml_quote : (s : String) → has_char b'\n' (toml_quote s) ≡ false
unfolding toml_quote has_char
has_char-toml_quote s = has_char-toml_chars s "\""

ends_plain-toml_char :
    (c : Char) (rest : String) → ends_plain rest ≡ true → ends_plain (toml_char c rest) ≡ true
unfolding toml_char unicode_escape append
ends_plain-toml_char c rest h = elim (Bool-cases (nat_beq (code c) b'\\')) [
  | inl e ↦ rw e (ends_plain-append "\\\\" rest h)
  | inr e ↦ elim (Bool-cases (nat_beq (code c) b'"')) [
    | inl f ↦ rw (e, f) (ends_plain-append "\\\"" rest h)
    | inr f ↦ elim (Bool-cases (ltb (code c) 0x20 || nat_beq (code c) 0x7f)) [
      | inl g ↦
          rw (e, f, g)
            (ends_plain-append
              (String.◌∷◌ "\\" (
                String.◌∷◌ "u" (
                  String.◌∷◌ (hex_digit (code c / 4096 % 16)) (
                    String.◌∷◌ (hex_digit (code c / 256 % 16)) (
                      String.◌∷◌ (hex_digit (code c / 16 % 16))
                        (String.◌∷◌ (hex_digit (code c % 16)) ""))))))
              rest h)
      | inr g ↦ rw (e, f, g) (ends_plain-cons c rest h)
    ]
  ]
]

ends_plain-toml_chars :
    (s rest : String) → ends_plain rest ≡ true → ends_plain (toml_chars s rest) ≡ true
unfolding toml_chars
ends_plain-toml_chars String.[] rest h = h
ends_plain-toml_chars (String.◌∷◌ c s) rest h =
    ends_plain-toml_char c (toml_chars s rest) (ends_plain-toml_chars s rest h)

pub ends_plain-toml_quote : (s : String) → ends_plain (toml_quote s) ≡ true
unfolding toml_quote
ends_plain-toml_quote s =
    ends_plain-cons "\"" (toml_chars s "\"") (ends_plain-toml_chars s "\"" (unfold last_is in refl))

-- A line in front of others.
pub split-line :
    (s t : String)
    → has_char b'\n' s ≡ false
    → split b'\n' (append s (append "\n" t)) ≡ s ∷ split b'\n' t
split-line s t h = split-append s t ∙ ap (λ l. l ++ split b'\n' t) (split-plain s h)
