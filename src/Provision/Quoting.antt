-- ===== src/Provision/Quoting.antt =====
-- api/v1/agents_provision.py: the checks of hosts, users and key ids, and the quoting of values for
-- TOML and, by the standard library's `shlex.quote`, for a shell.
use Prim.Native.Char.{Char, code}
use zaqorincore.Prelude.{
  ℕ, zero, suc, ◌/◌, ◌%◌, String, Bool, false, not, ◌&&◌, ◌||◌, Option, none, some, List, [], ◌∷◌,
  leb, ltb, nat_beq, contains, nat_eq, is_empty, text_length, append, has_prefix, has_suffix,
  all_chars, if◌then◌else◌, Result, ok, ◌>>◌, raise_if,
}

-- The HTTPExceptions.
pub data ProvisionError : Type 0 where
  invalid_host invalid_user invalid_key_id : ProvisionError
  template_too_large not_parseable : ProvisionError
  blank_agent_id invalid_agent_id : ProvisionError
  unknown_agent : ProvisionError

-- [A-Za-z0-9]
abbrev pub is_alnum : ℕ → Bool
is_alnum c = (leb 48 c && leb c 57) || (leb 65 c && leb c 90) || (leb 97 c && leb c 122)

-- `$` also matches before a newline at the end.
unfoldable pub drop_newline : String → String
drop_newline String.[] = String.[]
drop_newline (String.◌∷◌ c s) =
    let rest = drop_newline s in
    if is_empty s && nat_beq (code c) b'\n' then String.[] else String.◌∷◌ c rest

abbrev pub first_is : (ℕ → Bool) → String → Bool
first_is p String.[] = false
first_is p (String.◌∷◌ c s) = p (code c)

unfoldable pub last_is : (ℕ → Bool) → String → Bool
last_is p String.[] = false
last_is p (String.◌∷◌ c s) = let rest = last_is p s in if is_empty s then p (code c) else rest

-- _HOST_RE.match: the characters between the ends are at most 253.
unfoldable pub host_matches : String → Bool
unfolding drop_newline last_is
host_matches raw =
    let s = drop_newline raw in
    leb 2 (text_length s)
    && leb (text_length s) 255
    && first_is is_alnum s
    && last_is is_alnum s
    && all_chars (λ c. is_alnum c || contains c (b'.' ∷ b'_' ∷ b'-' ∷ b':' ∷ [])) s

-- _USER_RE.match
unfoldable pub user_matches : String → Bool
unfolding drop_newline
user_matches raw =
    let s = drop_newline raw in
    leb 1 (text_length s)
    && leb (text_length s) 64
    && first_is (λ c. (leb 65 c && leb c 90) || (leb 97 c && leb c 122) || nat_beq c b'_') s
    && all_chars (λ c. is_alnum c || contains c (b'_' ∷ b'.' ∷ b'-' ∷ [])) s

-- _KEY_ID_RE.match
unfoldable pub key_id_matches : String → Bool
unfolding drop_newline
key_id_matches raw =
    let s = drop_newline raw in
    leb 1 (text_length s)
    && leb (text_length s) 128
    && all_chars
        (λ c.
          is_alnum c
          || contains c (b'_' ∷ b'.' ∷ b'-' ∷ b'/' ∷ b'+' ∷ b'=' ∷ b'@' ∷ b':' ∷ b',' ∷ []))
        s

-- s[1:-1]
abbrev pub without_ends : String → String
without_ends String.[] = String.[]
without_ends (String.◌∷◌ c s) = without_last s
  where
    without_last : String → String
    without_last String.[] = String.[]
    without_last (String.◌∷◌ d t) =
        let rest = without_last t in if is_empty t then String.[] else String.◌∷◌ d rest

unfoldable pub safe_host : String → Result ProvisionError String
unfolding host_matches has_prefix has_suffix
safe_host raw = do
  raise_if (is_empty raw || ltb 255 (text_length raw)) invalid_host
  raise_if
      (not
        (host_matches (if has_prefix raw "[" && has_suffix raw "]" then without_ends raw else raw)))
      invalid_host
  ok raw

unfoldable pub safe_user : String → Result ProvisionError String
unfolding user_matches
safe_user raw = raise_if (not (user_matches raw)) invalid_user >> ok raw

unfoldable pub safe_key_id : Option String → Result ProvisionError (Option String)
unfolding key_id_matches
safe_key_id none = ok none
safe_key_id (some raw) = raise_if (not (key_id_matches raw)) invalid_key_id >> ok (some raw)

-- `format(n, "X")` of a digit
unfoldable pub hex_digit : ℕ → Char
hex_digit zero = "0"
hex_digit (suc zero) = "1"
hex_digit (suc (suc zero)) = "2"
hex_digit (suc (suc (suc zero))) = "3"
hex_digit (suc (suc (suc (suc zero)))) = "4"
hex_digit (suc (suc (suc (suc (suc zero))))) = "5"
hex_digit (suc (suc (suc (suc (suc (suc zero)))))) = "6"
hex_digit (suc (suc (suc (suc (suc (suc (suc zero))))))) = "7"
hex_digit (suc (suc (suc (suc (suc (suc (suc (suc zero)))))))) = "8"
hex_digit (suc (suc (suc (suc (suc (suc (suc (suc (suc zero))))))))) = "9"
hex_digit (suc (suc (suc (suc (suc (suc (suc (suc (suc (suc zero)))))))))) = "A"
hex_digit (suc (suc (suc (suc (suc (suc (suc (suc (suc (suc (suc zero))))))))))) = "B"
hex_digit (suc (suc (suc (suc (suc (suc (suc (suc (suc (suc (suc (suc zero)))))))))))) = "C"
hex_digit (suc (suc (suc (suc (suc (suc (suc (suc (suc (suc (suc (suc (suc zero))))))))))))) = "D"
hex_digit (suc (suc (suc (suc (suc (suc (suc (suc (suc (suc (suc (suc (suc (suc zero)))))))))))))) =
    "E"
hex_digit _ = "F"

-- f"\\u{n:04X}{rest}", for n below 65,536
unfoldable pub unicode_escape : ℕ → String → String
unicode_escape n rest = String.◌∷◌ "\\" (
    String.◌∷◌ "u" (
      String.◌∷◌ (hex_digit (n / 4096 % 16)) (
        String.◌∷◌ (hex_digit (n / 256 % 16))
          (String.◌∷◌ (hex_digit (n / 16 % 16)) (String.◌∷◌ (hex_digit (n % 16)) rest)))))

-- One character of a TOML string, in front of the rest.
unfoldable pub toml_char : Char → String → String
toml_char c rest =
    if nat_beq (code c) b'\\'
    then String.◌∷◌ "\\" (String.◌∷◌ "\\" rest)
    else if nat_beq (code c) b'"'
    then String.◌∷◌ "\\" (String.◌∷◌ "\"" rest)
    else if ltb (code c) 0x20 || nat_beq (code c) 0x7f
    then unicode_escape (code c) rest
    else String.◌∷◌ c rest

unfoldable pub toml_chars : String → String → String
toml_chars String.[] rest = rest
toml_chars (String.◌∷◌ c s) rest = toml_char c (toml_chars s rest)

-- `_toml_quote`
unfoldable pub toml_quote : String → String
toml_quote value = String.◌∷◌ "\"" (toml_chars value "\"")

-- The characters that `shlex.quote` leaves alone: [A-Za-z0-9_@%+=:,./-]
unfoldable pub is_shell_safe : ℕ → Bool
is_shell_safe c =
    is_alnum c
    || contains c (b'_' ∷ b'@' ∷ b'%' ∷ b'+' ∷ b'=' ∷ b':' ∷ b',' ∷ b'.' ∷ b'/' ∷ b'-' ∷ [])

-- s.replace("'", "'\"'\"'") in front of the rest
unfoldable pub shell_chars : String → String → String
shell_chars String.[] rest = rest
shell_chars (String.◌∷◌ c s) rest =
    let more = shell_chars s rest in
    if nat_beq (code c) b'\'' then append "'\"'\"'" more else String.◌∷◌ c more

-- `shlex.quote`
unfoldable pub shell_quote : String → String
shell_quote s =
    if is_empty s
    then "''"
    else if all_chars is_shell_safe s
    then s
    else String.◌∷◌ "'" (shell_chars s "'")

-- sep.join(parts)
unfoldable pub join : String → List String → String
unfolding append
join sep [] = ""
join sep (p ∷ []) = p
join sep (p ∷ q ∷ ps) = append p (append sep (join sep (q ∷ ps)))

-- "".join(parts)
unfoldable pub concat : List String → String
unfolding append
concat [] = ""
concat (p ∷ ps) = append p (concat ps)
