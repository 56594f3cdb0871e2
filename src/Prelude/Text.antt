-- ===== src/Prelude/Text.antt =====
-- The methods of Python's `str` that the server uses, on the native texts. Letter case and digits
-- are those of ASCII; white space is all that `str.isspace` accepts.
use Prim.Native.Nat.{ℕ, zero, suc}
use Prim.Native.Char.{Char, code}
use Prim.Native.String.{String}
use mathlib.Core.Path.{◌≡◌, refl, ap}
use mathlib.Core.Bool.{Bool, true, false, ◌&&◌, ◌||◌}
use mathlib.Core.List.{List, [], ◌∷◌}
use zaqorincore.Prelude.Tests.{nat_beq, leb, if◌then◌else◌}

abbrev pub is_empty : String → Bool
is_empty String.[] = true
is_empty (String.◌∷◌ c s) = false

-- len(s)
abbrev pub text_length : String → ℕ
text_length String.[] = 0
text_length (String.◌∷◌ c s) = suc (text_length s)

-- s + t
unfoldable pub append : String → String → String
append String.[] t = t
append (String.◌∷◌ c s) t = String.◌∷◌ c (append s t)

pub append_empty : (s : String) → append s "" ≡ s
unfolding append
append_empty String.[] = refl
append_empty (String.◌∷◌ c s) = ap (String.◌∷◌ c) (append_empty s)

pub append_text_assoc : (a b c : String) → append (append a b) c ≡ append a (append b c)
unfolding append
append_text_assoc String.[] b c = refl
append_text_assoc (String.◌∷◌ x a) b c = ap (String.◌∷◌ x) (append_text_assoc a b c)

-- s.startswith(p)
unfoldable pub has_prefix : String → String → Bool
has_prefix s String.[] = true
has_prefix String.[] (String.◌∷◌ d p) = false
has_prefix (String.◌∷◌ c s) (String.◌∷◌ d p) = nat_beq (code c) (code d) && has_prefix s p

-- p in s, for texts
unfoldable pub has_part : String → String → Bool
unfolding has_prefix
has_part String.[] p = has_prefix String.[] p
has_part (String.◌∷◌ c s) p = has_prefix (String.◌∷◌ c s) p || has_part s p

-- s.endswith(p)
unfoldable pub has_suffix : String → String → Bool
unfolding has_prefix
has_suffix String.[] p = has_prefix String.[] p
has_suffix (String.◌∷◌ c s) p =
    has_suffix s p
    || (nat_beq (text_length (String.◌∷◌ c s)) (text_length p) && has_prefix (String.◌∷◌ c s) p)

-- c.isspace()
unfoldable pub is_space : ℕ → Bool
is_space c =
    (leb 9 c && leb c 13)
    || (leb 28 c && leb c 32)
    || nat_beq c 0x85
    || nat_beq c 0xa0
    || nat_beq c 0x1680
    || (leb 0x2000 c && leb c 0x200a)
    || nat_beq c 0x2028
    || nat_beq c 0x2029
    || nat_beq c 0x202f
    || nat_beq c 0x205f
    || nat_beq c 0x3000

unfoldable pub strip_start : String → String
unfolding is_space
strip_start String.[] = String.[]
strip_start (String.◌∷◌ c s) =
    let rest = strip_start s in if is_space (code c) then rest else String.◌∷◌ c s

unfoldable pub strip_end : String → String
unfolding is_space
strip_end String.[] = String.[]
strip_end (String.◌∷◌ c s) =
    let rest = strip_end s in
    if is_space (code c) && is_empty rest then String.[] else String.◌∷◌ c rest

-- s.strip()
unfoldable pub strip : String → String
unfolding strip_start strip_end
strip s = strip_end (strip_start s)

strip_inner : strip "  a b \t" ≡ "a b"
unfolding strip
strip_inner = refl

abbrev pub push_first : String → List String → List String
push_first s [] = s ∷ []
push_first s (p ∷ ps) = append s p ∷ ps

-- s.split(sep), for a separator of one character
unfoldable pub split : ℕ → String → List String
unfolding append
split sep String.[] = "" ∷ []
split sep (String.◌∷◌ c s) =
    let rest = split sep s in
    if nat_beq (code c) sep then "" ∷ rest else push_first (String.◌∷◌ c String.[]) rest

-- s.partition(sep), for a separator of one character: what stands before, if it is there, after
unfoldable pub partition : ℕ → String → String × Bool × String
partition sep String.[] = ("", false, "")
partition sep (String.◌∷◌ c s) =
    let (before, found, after) = partition sep s in
    if nat_beq (code c) sep then ("", true, s) else (String.◌∷◌ c before, found, after)

-- c in s, for one character
unfoldable pub has_char : ℕ → String → Bool
has_char d String.[] = false
has_char d (String.◌∷◌ c s) = nat_beq (code c) d || has_char d s

-- all(p(c) for c in s)
abbrev pub all_chars : (ℕ → Bool) → String → Bool
all_chars p String.[] = true
all_chars p (String.◌∷◌ c s) = p (code c) && all_chars p s

split_example : split 46 "10.0..1" ≡ "10" ∷ "0" ∷ "" ∷ "1" ∷ []
unfolding split
split_example = refl

partition_example : partition 58 "ge: 5:1" ≡ ("ge", true, " 5:1")
unfolding partition
partition_example = refl

lower_letters : List (ℕ × Char)
lower_letters =
    (65, "a")
    ∷ (66, "b")
    ∷ (67, "c")
    ∷ (68, "d")
    ∷ (69, "e")
    ∷ (70, "f")
    ∷ (71, "g")
    ∷ (72, "h")
    ∷ (73, "i")
    ∷ (74, "j")
    ∷ (75, "k")
    ∷ (76, "l")
    ∷ (77, "m")
    ∷ (78, "n")
    ∷ (79, "o")
    ∷ (80, "p")
    ∷ (81, "q")
    ∷ (82, "r")
    ∷ (83, "s")
    ∷ (84, "t")
    ∷ (85, "u")
    ∷ (86, "v")
    ∷ (87, "w")
    ∷ (88, "x")
    ∷ (89, "y")
    ∷ (90, "z")
    ∷ []

lower_char : List (ℕ × Char) → Char → Char
lower_char [] c = c
lower_char ((n, d) ∷ rest) c = if nat_beq (code c) n then d else lower_char rest c

-- s.lower()
unfoldable pub lower : String → String
unfolding lower_letters lower_char
lower String.[] = String.[]
lower (String.◌∷◌ c s) = String.◌∷◌ (lower_char lower_letters c) (lower s)

-- s.replace(c, ""), for one character
unfoldable pub without_char : ℕ → String → String
without_char d String.[] = String.[]
without_char d (String.◌∷◌ c s) =
    let rest = without_char d s in if nat_beq (code c) d then rest else String.◌∷◌ c rest

-- s[:n]
unfoldable pub take_text : ℕ → String → String
take_text zero s = String.[]
take_text (suc n) String.[] = String.[]
take_text (suc n) (String.◌∷◌ c s) = String.◌∷◌ c (take_text n s)

lower_example : lower "HiGH-7" ≡ "high-7"
unfolding lower
lower_example = refl
