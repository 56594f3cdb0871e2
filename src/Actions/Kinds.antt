-- ===== src/Actions/Kinds.antt =====
-- server/src/zaqorincore_server/action_kinds.py: the table of action kinds.
use zaqorincore.Prelude.{
  ℕ, String, Bool, true, false, Option, none, some, List, [], ◌∷◌, map, Result, ok, err, string_eq,
}
use zaqorincore.Dict.{Dict, get, has}

pub data TargetShape : Type 0 where
  ipv4 ipv4_cidr pid path user session url host : TargetShape

pub record Kind : Type 0 where
  pub name : String
  pub target_shape : TargetShape
  pub default_ttl_sec : ℕ
  pub description : String
  pub requires_host_opt_in : Bool

-- An entry of `KINDS`, under its name.
abbrev entry : String → TargetShape → ℕ → String → Bool → String × Kind
entry name shape ttl text opt_in = (
  name,
  record {
    name = name;
    target_shape = shape;
    default_ttl_sec = ttl;
    description = text;
    requires_host_opt_in = opt_in;
  },
)

abbrev pub kinds : Dict String Kind
kinds =
    entry "block_ip" ipv4 3600 "Drop all traffic from this source IP via nftables." true
    ∷ entry "tarpit_ip" ipv4 1800 "Accept connections from this IP but throttle reads to a trickle."
        true
    ∷ entry "canary_alert" path 0
        "Alert when this canary file/path is touched. Zero false positives." false
    ∷ entry "isolate_host" host 900 "Block all network egress from this host (kill switch)." true
    ∷ entry "kill_process" pid 0 "Send SIGKILL to the offending process (cgroup-scoped)." true
    ∷ entry "quarantine_file" path 0 "chmod 000 the file and move it to the evidence vault." true
    ∷ entry "revoke_session" session 86400 "Invalidate the session/credential and force re-auth."
        true
    ∷ entry "webhook_soar" url 0 "POST a signed event to a SOAR endpoint. Action lives in the SOAR."
        false
    ∷ entry "evidence_capture" host 0
        "Capture logs/process tree/network state into the evidence vault." false
    ∷ []

-- The ValueErrors of the module, one for each `raise`.
pub data ValueError : Type 0 where
  unknown_kind : ValueError
  not_dotted_quad non_numeric_octet octet_out_of_range : ValueError
  unspecified_address broadcast_address denied_range : ValueError
  not_cidr non_numeric_prefix prefix_out_of_range prefix_zero prefix_wide : ValueError
  non_numeric_pid pid_not_positive : ValueError
  not_absolute_path : ValueError
  empty_username illegal_username : ValueError
  empty_target : ValueError

unfoldable pub is_valid_kind : String → Bool
unfolding has
is_valid_kind name = has name kinds

abbrev found_kind : Option Kind → Result ValueError Kind
found_kind none = err unknown_kind
found_kind (some k) = ok k

unfoldable pub get_kind : String → Result ValueError Kind
unfolding get
get_kind name = found_kind (get name kinds)

unfoldable pub list_kinds : List String
list_kinds = map (λ e. e.0) kinds
