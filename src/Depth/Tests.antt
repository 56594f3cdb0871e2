-- ===== src/Depth/Tests.antt =====
-- The depth check on concrete texts.
use zaqorincore.Prelude.{◌≡◌, refl, true, leb, append, all_chars}
use zaqorincore.Depth.{check_depth}
use zaqorincore.Depth.Json.{
  is_plain, Json, literal, text, array, item, no_items, object, member, no_members, print,
  print_text, depth,
}
use zaqorincore.Depth.Nesting.{check_depth-print}

one_plain : all_chars is_plain "1" ≡ true
unfolding is_plain
one_plain = refl

abbrev sample : Json
sample =
    object
      (member "a[" (array (item (literal "1" one_plain) (item (text "}\"") no_items))) no_members)

sample_text : print sample "" ≡ "{\"a[\":[1,\"}\\\"\"]}"
unfolding print print_text append
sample_text = refl

check_depth-print_example : check_depth 1 (print sample "") ≡ leb (depth sample) 1
check_depth-print_example = check_depth-print sample 1
