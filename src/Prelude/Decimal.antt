-- ===== src/Prelude/Decimal.antt =====
-- `str(n)` of a number that is not negative.
use Prim.Native.Nat.{ℕ, zero, suc, ◌+◌, ◌-◌, ◌*◌, ◌/◌, ◌%◌, ◌<◌}
use Prim.Native.Char.{Char, code}
use Prim.Native.String.{String}
use mathlib.Core.Path.{◌≡◌, refl, ap, ◌∙◌}
use mathlib.Core.Bool.{Bool, true, false}
use mathlib.Core.Logic.{inl, inr}
use mathlib.Core.Option.{some}
use native.Mathlib.Omega.{arith}
use zaqorincore.Prelude.Tests.{ltb, if◌then◌else◌, Bool-cases, ltb→lt, ltb→le}
use zaqorincore.Prelude.Text.{has_char}
use zaqorincore.Prelude.Int.{digits, is_digit}

digit : ℕ → Char
digit zero = "0"
digit (suc zero) = "1"
digit (suc (suc zero)) = "2"
digit (suc (suc (suc zero))) = "3"
digit (suc (suc (suc (suc zero)))) = "4"
digit (suc (suc (suc (suc (suc zero))))) = "5"
digit (suc (suc (suc (suc (suc (suc zero)))))) = "6"
digit (suc (suc (suc (suc (suc (suc (suc zero))))))) = "7"
digit (suc (suc (suc (suc (suc (suc (suc (suc zero)))))))) = "8"
digit _ = "9"

-- The digits of `n` in front of `rest`; the fuel is above `n`, which is enough.
decimal_from : ℕ → ℕ → String → String
unfolding digit
decimal_from zero n rest = rest
decimal_from (suc f) n rest =
    let longer = decimal_from f (n / 10) (String.◌∷◌ (digit (n % 10)) rest) in
    if ltb n 10 then String.◌∷◌ (digit (n % 10)) rest else longer

unfoldable pub decimal : ℕ → String
unfolding decimal_from
decimal n = decimal_from (n + 1) n ""

code-digit : (d : ℕ) → d < 10 → code (digit d) ≡ 48 + d
unfolding digit
code-digit zero h = refl
code-digit (suc zero) h = refl
code-digit (suc (suc zero)) h = refl
code-digit (suc (suc (suc zero))) h = refl
code-digit (suc (suc (suc (suc zero)))) h = refl
code-digit (suc (suc (suc (suc (suc zero))))) h = refl
code-digit (suc (suc (suc (suc (suc (suc zero)))))) h = refl
code-digit (suc (suc (suc (suc (suc (suc (suc zero))))))) h = refl
code-digit (suc (suc (suc (suc (suc (suc (suc (suc zero)))))))) h = refl
code-digit (suc (suc (suc (suc (suc (suc (suc (suc (suc zero))))))))) h = refl
code-digit (suc (suc (suc (suc (suc (suc (suc (suc (suc (suc d)))))))))) h = absurd (omega arith)

digits-digit :
    (after : Bool) (m d : ℕ) (s : String)
    → d < 10
    → digits after m (String.◌∷◌ (digit d) s) ≡ digits true (m * 10 + d) s
unfolding digits is_digit
digits-digit after m d s h =
    let e : 48 + d - 48 ≡ d = omega arith in rw (code-digit d h, e) (ground arith)

digits-decimal_from :
    (f n : ℕ) (after : Bool) (rest : String)
    → n < f
    → digits after 0 (decimal_from f n rest) ≡ digits true n rest
unfolding decimal_from
digits-decimal_from zero n after rest h = absurd (omega arith)
digits-decimal_from (suc f) n after rest h = elim (Bool-cases (ltb n 10)) [
  | inl small ↦ rw small (
      digits-digit after 0 (n % 10) rest (omega arith)
      ∙ ap (λ k. digits true k rest) (omega (arith, ltb→lt n 10 small)))
  | inr big ↦ rw big (
      digits-decimal_from f (n / 10) after (String.◌∷◌ (digit (n % 10)) rest)
        (omega (arith, ltb→le n 10 big))
      ∙ digits-digit true (n / 10) (n % 10) rest (omega arith)
      ∙ ap (λ k. digits true k rest) (omega arith))
]

-- The digits of a number read back as the number.
pub digits-decimal : (n : ℕ) → digits false 0 (decimal n) ≡ some n
unfolding decimal digits
digits-decimal n = digits-decimal_from (n + 1) n false "" (omega arith)

has_char-decimal_from :
    (f n : ℕ) (rest : String)
    → has_char b'|' rest ≡ false
    → has_char b'|' (decimal_from f n rest) ≡ false
unfolding decimal_from has_char
has_char-decimal_from zero n rest h = h
has_char-decimal_from (suc f) n rest h = ground (
  arith,
  code-digit (n % 10) (omega arith),
  has_char-decimal_from f (n / 10) (String.◌∷◌ (digit (n % 10)) rest),
)

pub has_char-decimal : (n : ℕ) → has_char b'|' (decimal n) ≡ false
unfolding decimal has_char
has_char-decimal n = has_char-decimal_from (n + 1) n "" refl
