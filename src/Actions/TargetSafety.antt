-- ===== src/Actions/TargetSafety.antt =====
-- What an accepted target of `validate_target` is.
use zaqorincore.Prelude.{
  ℕ, ◌+◌, ◌≤◌, ◌<◌, String, false, List, [], ◌∷◌, ok, >>=-eq-ok, split, ◌≡◌, ◌≢◌, ◌⊎◌, arith,
}
use zaqorincore.Actions.Kinds.{ipv4, Kind, get_kind}
use zaqorincore.Actions.Targets.{
  Octets, octet, bounded_int, octets_of, parse_ipv4, ip_to_int, check_dangerous_single,
  validate_shape, validate_target,
}

-- Four octets that name neither the unspecified, the broadcast, a loopback nor a multicast address.
pub record IsSafe (o : Octets) : Type 0 where
  pub not_loopback : o.0 ≢ 127
  pub not_multicast : (o.0 < 224) ⊎ (239 < o.0)
  pub not_unspecified : 0 < o.0 + o.1 + o.2 + o.3
  pub not_broadcast : o.0 + o.1 + o.2 + o.3 < 1020

pub record AreOctets (o : Octets) : Type 0 where
  pub first : o.0 ≤ 255
  pub second : o.1 ≤ 255
  pub third : o.2 ≤ 255
  pub fourth : o.3 ≤ 255

octet-le : (part : String) (n : ℕ) → octet part ≡ ok n → n ≤ 255
unfolding octet bounded_int
octet-le part n h = ground arith

octets_of-AreOctets : (parts : List String) (o : Octets) → octets_of parts ≡ ok o → AreOctets o
unfolding octets_of
octets_of-AreOctets (a ∷ b ∷ c ∷ d ∷ []) o h =
    ground (arith, octet-le a o.0, octet-le b o.1, octet-le c o.2, octet-le d o.3)
octets_of-AreOctets parts o h = ground arith

pub parse_ipv4-AreOctets : (target : String) (o : Octets) → parse_ipv4 target ≡ ok o → AreOctets o
unfolding parse_ipv4
parse_ipv4-AreOctets target o h = octets_of-AreOctets (split b'.' target) o h

check-IsSafe :
    (o : Octets) → AreOctets o → (check_dangerous_single false (ip_to_int o) ≡ ok tt) → IsSafe o
unfolding check_dangerous_single ip_to_int
check-IsSafe o a h = ground arith

IsSafe-check :
    (o : Octets) → AreOctets o → IsSafe o → check_dangerous_single false (ip_to_int o) ≡ ok tt
unfolding check_dangerous_single ip_to_int
IsSafe-check o a h = ground arith

validate_shape_ipv4 :
    (target : String)
    → validate_shape false ipv4 target ≡ ok tt
    → (o : Octets) × (parse_ipv4 target ≡ ok o) × AreOctets o × IsSafe o
unfolding validate_shape
validate_shape_ipv4 target h =
    let (o, parsed, checked) =
      >>=-eq-ok (parse_ipv4 target) (λ q. check_dangerous_single false (ip_to_int q)) h in
    let a = parse_ipv4-AreOctets target o parsed in (o, parsed, a, check-IsSafe o a checked)

module _ (kind_name target : String) {kind : Kind} (known : get_kind kind_name ≡ ok kind)
    (shape : kind.target_shape ≡ ipv4) where
  -- If the kind is registered with IPv4 targets, a target accepted without the override parses to
  -- four octets of at most 255, which are not those of an unspecified, broadcast, loopback or
  -- multicast address.
  pub validate_target-IsSafe :
      validate_target false kind_name target ≡ ok tt
      → (o : Octets) × (parse_ipv4 target ≡ ok o) × AreOctets o × IsSafe o
  unfolding validate_target
  validate_target-IsSafe h = validate_shape_ipv4 target (rw (known, shape) at h)

  -- If the kind is registered with IPv4 targets, each target that parses to a safe address is
  -- accepted without the override.
  pub IsSafe-validate_target :
      (o : Octets)
      → parse_ipv4 target ≡ ok o
      → IsSafe o
      → validate_target false kind_name target ≡ ok tt
  unfolding validate_target validate_shape
  IsSafe-validate_target o parsed safe =
      rw (known, shape, parsed) (IsSafe-check o (parse_ipv4-AreOctets target o parsed) safe)
