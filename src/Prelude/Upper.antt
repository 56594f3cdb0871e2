-- ===== src/Prelude/Upper.antt =====
-- `str.upper`, for ASCII.
use Prim.Native.Char.{Char, code}
use Prim.Native.String.{String}
use mathlib.Core.Path.{◌≡◌, refl}
use mathlib.Core.List.{List, [], ◌∷◌}
use zaqorincore.Prelude.Tests.{nat_beq, if◌then◌else◌}

upper_letters : List (Char × Char)
upper_letters =
    ("a", "A")
    ∷ ("b", "B")
    ∷ ("c", "C")
    ∷ ("d", "D")
    ∷ ("e", "E")
    ∷ ("f", "F")
    ∷ ("g", "G")
    ∷ ("h", "H")
    ∷ ("i", "I")
    ∷ ("j", "J")
    ∷ ("k", "K")
    ∷ ("l", "L")
    ∷ ("m", "M")
    ∷ ("n", "N")
    ∷ ("o", "O")
    ∷ ("p", "P")
    ∷ ("q", "Q")
    ∷ ("r", "R")
    ∷ ("s", "S")
    ∷ ("t", "T")
    ∷ ("u", "U")
    ∷ ("v", "V")
    ∷ ("w", "W")
    ∷ ("x", "X")
    ∷ ("y", "Y")
    ∷ ("z", "Z")
    ∷ []

upper_char : List (Char × Char) → Char → Char
upper_char [] c = c
upper_char ((small, capital) ∷ rest) c =
    if nat_beq (code c) (code small) then capital else upper_char rest c

-- s.upper()
unfoldable pub upper : String → String
unfolding upper_letters upper_char
upper String.[] = String.[]
upper (String.◌∷◌ c s) = String.◌∷◌ (upper_char upper_letters c) (upper s)

upper_example : upper "Get-7" ≡ "GET-7"
unfolding upper
upper_example = refl
