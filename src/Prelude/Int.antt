-- ===== src/Prelude/Int.antt =====
-- Python's integers, and the built-in `int` on a text, for ASCII digits.
use Prim.Native.Nat.{ℕ, zero, suc, ◌+◌, ◌-◌, ◌*◌}
use Prim.Native.Char.{code}
use Prim.Native.String.{String}
use mathlib.Core.Path.{◌≡◌, refl}
use mathlib.Core.Bool.{Bool, true, false, ◌&&◌}
use mathlib.Core.Option.{Option, none, some}
use zaqorincore.Prelude.Tests.{nat_beq, leb, if◌then◌else◌}
use zaqorincore.Prelude.Text.{strip}

-- `negsuc n` is -(n + 1).
pub data ℤ : Type 0 where
  pos : ℕ → ℤ
  negsuc : ℕ → ℤ

abbrev pub negate : ℕ → ℤ
negate zero = pos 0
negate (suc n) = negsuc n

unfoldable pub is_digit : ℕ → Bool
is_digit c = leb 48 c && leb c 57

-- Digits, with single underscores between them; the flag says that a digit stands before.
unfoldable pub digits : Bool → ℕ → String → Option ℕ
unfolding is_digit
digits after n String.[] = if after then some n else none
digits after n (String.◌∷◌ ch s) =
    let next = digits true (n * 10 + (code ch - 48)) s in
    let joined = digits false n s in
    if is_digit (code ch) then next else if nat_beq (code ch) 95 && after then joined else none

signed : String → Option ℤ
unfolding digits
signed String.[] = none
signed (String.◌∷◌ ch s) =
    if nat_beq (code ch) 45
    then elim (digits false 0 s) [ none ↦ none | some n ↦ some (negate n) ]
    else if nat_beq (code ch) 43
    then elim (digits false 0 s) [ none ↦ none | some n ↦ some (pos n) ]
    else elim (digits false 0 (String.◌∷◌ ch s)) [ none ↦ none | some n ↦ some (pos n) ]

-- int(s); `none` is the ValueError
unfoldable pub int : String → Option ℤ
unfolding signed strip
int s = signed (strip s)

-- lo <= n <= hi, for bounds that are not negative, as the number itself
abbrev pub in_range : ℕ → ℕ → ℤ → Option ℕ
in_range lo hi (pos n) = if leb lo n && leb n hi then some n else none
in_range lo hi (negsuc n) = none

int_example : int " -1_2\n" ≡ some (negsuc 11)
unfolding int
int_example = refl

int_refused : int "1__2" ≡ none
unfolding int
int_refused = refl
