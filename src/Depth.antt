-- ===== src/Depth.antt =====
-- utils/depth_json.py: the decoder that refuses deeply nested JSON. What the standard library's
-- decoder makes of a text is a parameter.
pub mod Json
pub mod Nesting
mod Tests
use zaqorincore.Prelude.{
  ℕ, zero, suc, ◌+◌, String, Bool, true, false, not, ◌&&◌, ◌||◌, nat_beq, ltb, if◌then◌else◌,
  Result, ok, err, ◌>>=◌, raise_if,
}
use zaqorincore.Prelude.Int.{ℤ, pos, negsuc, negate}
use Prim.Native.Char.{code}

abbrev pub max_json_depth : ℕ
max_json_depth = 32

unfoldable pub is_open : ℕ → Bool
is_open c = nat_beq c b'[' || nat_beq c b'{'

unfoldable pub is_close : ℕ → Bool
is_close c = nat_beq c b']' || nat_beq c b'}'

unfoldable pub one_up : ℤ → ℤ
one_up (pos n) = pos (n + 1)
one_up (negsuc n) = negate n

unfoldable pub one_down : ℤ → ℤ
one_down (pos zero) = negsuc 0
one_down (pos (suc n)) = pos n
one_down (negsuc n) = negsuc (n + 1)

-- The depth after a character outside texts.
unfoldable pub next_depth : ℕ → ℤ → ℤ
unfolding is_open is_close one_up one_down
next_depth c depth =
    if is_open c then one_up depth else if is_close c then one_down depth else depth

unfoldable pub is_above : ℕ → ℤ → Bool
is_above max_depth (pos n) = ltb max_depth n
is_above max_depth (negsuc n) = false

-- The loop of `_check_depth`, from its variables `depth`, `in_string` and `escape`; false is the
-- ValueError.
unfoldable pub scan : ℕ → ℤ → Bool → Bool → String → Bool
unfolding next_depth is_above is_open
scan m depth in_string escape String.[] = true
scan m depth true true (String.◌∷◌ c s) = scan m depth true false s
scan m depth true false (String.◌∷◌ c s) =
    scan m depth (not (nat_beq (code c) b'"')) (nat_beq (code c) b'\\') s
scan m depth false escape (String.◌∷◌ c s) =
    let rest = scan m (next_depth (code c) depth) (nat_beq (code c) b'"') escape s in
    if is_open (code c) && is_above m (next_depth (code c) depth) then false else rest

-- `_check_depth` from the start of the text
unfoldable pub check_depth : ℕ → String → Bool
unfolding scan
check_depth m s = scan m (pos 0) false false s

-- The errors of `decode`: the depth's, or the decoder's own.
pub data DecodeError : Type 0 where
  too_deep : DecodeError
  malformed : DecodeError

-- `base` is `json.JSONDecoder.decode`, whose own call of `raw_decode` repeats the check at a later
-- index, after white space.
unfoldable pub decode :
    {A : Type 0} → (String → Result DecodeError A) → ℕ → String → Result DecodeError A
unfolding check_depth
decode base m s = raise_if (not (check_depth m s)) too_deep >>= λ u. base s

unfoldable pub safe_loads :
    {A : Type 0} → (String → Result DecodeError A) → String → Result DecodeError A
unfolding decode
safe_loads base s = decode base max_json_depth s
