-- ===== src/Depth/Json.antt =====
-- JSON values, their texts without white space, and how deep they nest.
use zaqorincore.Prelude.{
  ℕ, suc, max, String, Bool, true, not, ◌||◌, nat_beq, if◌then◌else◌, append, all_chars, ◌≡◌,
}
use Prim.Native.Char.{code}

-- A character of a number or of `true`, `false` and `null`: no quote and no bracket.
unfoldable pub is_plain : ℕ → Bool
is_plain c =
    not (nat_beq c b'"' || nat_beq c b'[' || nat_beq c b'{' || nat_beq c b']' || nat_beq c b'}')

mutual
  pub data Json : Type 0 where
    literal : (s : String) → all_chars is_plain s ≡ true → Json
    text : String → Json
    array : Items → Json
    object : Members → Json

  pub data Items : Type 0 where
    no_items : Items
    item : Json → Items → Items

  pub data Members : Type 0 where
    no_members : Members
    member : String → Json → Members → Members

-- The characters of a text, quotes and backslashes escaped, before `rest`.
unfoldable pub print_chars : String → String → String
print_chars String.[] rest = rest
print_chars (String.◌∷◌ c s) rest =
    let tail = String.◌∷◌ c (print_chars s rest) in
    if nat_beq (code c) b'"' || nat_beq (code c) b'\\' then String.◌∷◌ "\\" tail else tail

unfoldable pub print_text : String → String → String
unfolding print_chars
print_text s rest = String.◌∷◌ "\"" (print_chars s (String.◌∷◌ "\"" rest))

-- The text of a value, before `rest`.
unfoldable mutual
  unfolding print_text append

  pub print : Json → String → String
  print (literal s p) rest = append s rest
  print (text s) rest = print_text s rest
  print (array vs) rest = String.◌∷◌ "[" (print_items vs (String.◌∷◌ "]" rest))
  print (object ms) rest = String.◌∷◌ "{" (print_members ms (String.◌∷◌ "}" rest))

  pub print_items : Items → String → String
  print_items no_items rest = rest
  print_items (item v vs) rest = print v (print_more_items vs rest)

  pub print_more_items : Items → String → String
  print_more_items no_items rest = rest
  print_more_items (item v vs) rest = String.◌∷◌ "," (print v (print_more_items vs rest))

  pub print_members : Members → String → String
  print_members no_members rest = rest
  print_members (member k v ms) rest =
      print_text k (String.◌∷◌ ":" (print v (print_more_members ms rest)))

  pub print_more_members : Members → String → String
  print_more_members no_members rest = rest
  print_more_members (member k v ms) rest =
      String.◌∷◌ "," (print_text k (String.◌∷◌ ":" (print v (print_more_members ms rest))))

unfoldable mutual
  pub depth : Json → ℕ
  depth (literal s p) = 0
  depth (text s) = 0
  depth (array vs) = suc (depth_items vs)
  depth (object ms) = suc (depth_members ms)

  pub depth_items : Items → ℕ
  depth_items no_items = 0
  depth_items (item v vs) = max (depth v) (depth_items vs)

  pub depth_members : Members → ℕ
  depth_members no_members = 0
  depth_members (member k v ms) = max (depth v) (depth_members ms)
