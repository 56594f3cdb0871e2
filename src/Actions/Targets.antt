-- ===== src/Actions/Targets.antt =====
-- server/src/zaqorincore_server/action_kinds.py: `validate_target` and its deny list.
-- `allow_dangerous` is the environment's ZAQORIN_ALLOW_DANGEROUS_TARGETS=1.
use zaqorincore.Prelude.{
  ℕ, ◌+◌, ◌*◌, ◌^◌, String, Bool, true, false, not, ◌&&◌, ◌||◌, Option, none, some, List, [], ◌∷◌,
  Result, ok, err, ◌>>=◌, ◌>>◌, raise_if, ◌≡◌, refl, nat_beq, leb, any, is_empty, split, partition,
  has_char, has_prefix, all_chars, if◌then◌else◌,
}
use zaqorincore.Prelude.Int.{ℤ, pos, negsuc, int, in_range, is_digit}
use zaqorincore.Actions.Kinds.{
  TargetShape, ipv4, ipv4_cidr, pid, path, user, ValueError, not_dotted_quad, non_numeric_octet,
  octet_out_of_range, unspecified_address, broadcast_address, denied_range, not_cidr,
  non_numeric_prefix, prefix_out_of_range, prefix_zero, prefix_wide, non_numeric_pid,
  pid_not_positive, not_absolute_path, empty_username, illegal_username, empty_target, get_kind,
}

abbrev pub Octets : Type 0
Octets = ℕ × ℕ × ℕ × ℕ

-- `int(part)` between `lo` and `hi`
unfoldable pub bounded_int : ℕ → ℕ → ValueError → ValueError → String → Result ValueError ℕ
unfolding int
bounded_int lo hi non_numeric out_of_range part = elim (int part) [
  | none ↦ err non_numeric
  | some n ↦ elim (in_range lo hi n) [ none ↦ err out_of_range | some k ↦ ok k ]
]

unfoldable pub octet : String → Result ValueError ℕ
unfolding bounded_int
octet part = bounded_int 0 255 non_numeric_octet octet_out_of_range part

unfoldable pub octets_of : List String → Result ValueError Octets
unfolding octet
octets_of (a ∷ b ∷ c ∷ d ∷ []) = do
  o1 ← octet a
  o2 ← octet b
  o3 ← octet c
  o4 ← octet d
  ok (o1, o2, o3, o4)
octets_of _ = err not_dotted_quad

unfoldable pub parse_ipv4 : String → Result ValueError Octets
unfolding octets_of split
parse_ipv4 target = octets_of (split b'.' target)

-- The octets are below 256, so that the `|` of the shifted octets is their sum.
unfoldable pub ip_to_int : Octets → ℕ
ip_to_int (o1, o2, o3, o4) = o1 * 2 ^ 24 + o2 * 2 ^ 16 + o3 * 2 ^ 8 + o4

-- loopback 127.0.0.0/8 and multicast 224.0.0.0/4
abbrev pub deny_ranges : List (ℕ × ℕ)
deny_ranges =
    (ip_to_int (127, 0, 0, 0), ip_to_int (127, 255, 255, 255))
    ∷ (ip_to_int (224, 0, 0, 0), ip_to_int (239, 255, 255, 255))
    ∷ []

abbrev is_denied : ℕ → Bool
is_denied addr = any (λ r. leb r.0 addr && leb addr r.1) deny_ranges

unfoldable pub check_dangerous_single : Bool → ℕ → Result ValueError (Unit {0})
unfolding ip_to_int
check_dangerous_single true addr = ok tt
check_dangerous_single false addr = do
  raise_if (nat_beq addr 0) unspecified_address
  raise_if (nat_beq addr (ip_to_int (255, 255, 255, 255))) broadcast_address
  raise_if (is_denied addr) denied_range

unfoldable pub check_dangerous_cidr : Bool → ℕ → ℕ → Result ValueError (Unit {0})
unfolding ip_to_int
check_dangerous_cidr true addr prefix = ok tt
check_dangerous_cidr false addr prefix = do
  raise_if (nat_beq prefix 0) prefix_zero
  raise_if (leb prefix 8) prefix_wide
  raise_if (is_denied addr) denied_range

-- `c.isalnum() or c in ("_", "-", ".")`, for ASCII
is_username_char : ℕ → Bool
unfolding is_digit
is_username_char c =
    is_digit c
    || (leb b'a' c && leb c b'z')
    || (leb b'A' c && leb c b'Z')
    || nat_beq c b'_'
    || nat_beq c b'-'
    || nat_beq c b'.'

abbrev check_pid : Option ℤ → Result ValueError (Unit {0})
check_pid none = err non_numeric_pid
check_pid (some (negsuc n)) = err pid_not_positive
check_pid (some (pos n)) = raise_if (nat_beq n 0) pid_not_positive

unfoldable pub validate_cidr : Bool → String → Result ValueError (Unit {0})
unfolding has_char partition parse_ipv4 bounded_int check_dangerous_cidr
validate_cidr allow_dangerous target =
    if has_char b'/' target
    then (let (ip, _, prefix) = partition b'/' target in
        do
          octets ← parse_ipv4 ip
          n ← bounded_int 0 32 non_numeric_prefix prefix_out_of_range prefix
          check_dangerous_cidr allow_dangerous (ip_to_int octets) n)
    else err not_cidr

unfoldable pub validate_shape : Bool → TargetShape → String → Result ValueError (Unit {0})
unfolding parse_ipv4 check_dangerous_single validate_cidr int has_prefix is_username_char
validate_shape allow_dangerous ipv4 target = do
  octets ← parse_ipv4 target
  check_dangerous_single allow_dangerous (ip_to_int octets)
validate_shape allow_dangerous ipv4_cidr target = validate_cidr allow_dangerous target
validate_shape allow_dangerous pid target = check_pid (int target)
validate_shape allow_dangerous path target =
    raise_if (not (has_prefix target "/")) not_absolute_path
validate_shape allow_dangerous user target = do
  raise_if (is_empty target) empty_username
  raise_if (not (all_chars is_username_char target)) illegal_username
validate_shape allow_dangerous _ target = raise_if (is_empty target) empty_target

unfoldable pub validate_target : Bool → String → String → Result ValueError (Unit {0})
unfolding get_kind validate_shape
validate_target allow_dangerous kind_name target = do
  kind ← get_kind kind_name
  validate_shape allow_dangerous kind.target_shape target

accepts_odd_spellings : validate_target false "block_ip" " +8.8.0_8.08\n" ≡ ok tt
unfolding validate_target
accepts_odd_spellings = refl

refuses_loopback : validate_target false "block_ip" "127.0.0.1" ≡ err denied_range
unfolding validate_target
refuses_loopback = refl
