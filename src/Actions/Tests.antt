-- ===== src/Actions/Tests.antt =====
-- Targets, modes and the table of actions on concrete values.
use zaqorincore.Prelude.{◌≡◌, refl, true, false, none, some, List, [], ◌∷◌, ok, inl, arith}
use zaqorincore.Actions.Kinds.{ipv4, Kind, get_kind}
use zaqorincore.Actions.Targets.{Octets, parse_ipv4, validate_target}
use zaqorincore.Actions.TargetSafety.{IsSafe, AreOctets, validate_target-IsSafe}
use zaqorincore.Actions.Store.{Action, pending}
use zaqorincore.Actions.Lifecycle.{Update, set_dispatched, set_applied, set_failed}

abbrev block_ip : Kind
block_ip = record {
  name = "block_ip";
  target_shape = ipv4;
  default_ttl_sec = 3600;
  description = "Drop all traffic from this source IP via nftables.";
  requires_host_opt_in = true;
}

block_ip_known : get_kind "block_ip" ≡ ok block_ip
unfolding get_kind
block_ip_known = refl

abbrev google : Octets
google = (8, 8, 4, 4)

google_parsed : parse_ipv4 "8.8.4.4" ≡ ok google
unfolding parse_ipv4
google_parsed = refl

google_accepted : validate_target false "block_ip" "8.8.4.4" ≡ ok tt
unfolding validate_target
google_accepted = refl

google-IsSafe : IsSafe google
google-IsSafe = record {
  not_loopback = λ e. omega (arith, e);
  not_multicast = inl (omega arith);
  not_unspecified = omega arith;
  not_broadcast = omega arith;
}

validate_target-IsSafe_example :
    (o : Octets) × (parse_ipv4 "8.8.4.4" ≡ ok o) × AreOctets o × IsSafe o
validate_target-IsSafe_example =
    validate_target-IsSafe "block_ip" "8.8.4.4" block_ip_known refl google_accepted

abbrev rows : List Action
rows =
    record {
      id = 7;
      host_id = some 1;
      alert_id = none;
      kind = "block_ip";
      target = "8.8.4.4";
      ttl_sec = some 60;
      status = pending;
      created_at = 3;
      sent_at = none;
      acked_at = none;
    }
    ∷ []

abbrev updates : List Update
updates = set_applied 4 7 ∷ set_dispatched 5 7 ∷ set_failed 6 7 ∷ set_applied 8 7 ∷ []
