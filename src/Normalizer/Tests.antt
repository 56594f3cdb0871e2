-- ===== src/Normalizer/Tests.antt =====
-- A report of a violated directive, and its way through a log record.
use zaqorincore.Prelude.{
  true, none, some, [], ◌∷◌, ok, err, ◌≡◌, refl, string_eq, partition, strip, has_char,
}
use zaqorincore.Prelude.Int.{pos}
use zaqorincore.Dict.{get}
use zaqorincore.Soar.Load.{overflow}
use zaqorincore.Normalizer.{
  chars, other, Python, ZaqorinEvent, int_overflow, to_metadata, from_log_record, from_csp_report,
  directive_of, is_truthy, opt_text, opt_int,
}
use zaqorincore.Normalizer.RoundTrip.{from_log_record-to_metadata}

-- The only other value is an infinite float.
abbrev python : Python (Unit {0})
python = record {
  str_of = λ v. "inf";
  int_of = λ v. overflow;
  is_true = λ v. true;
  dict_of = λ v. none;
}

abbrev event : ZaqorinEvent
event = record {
  ts = "t";
  event_type = "csp.violation";
  src_ip = some "10.0.0.1";
  route = some "/api/v1/_csp-report";
  status = some (pos 204);
  auth_method = none;
  key_id = none;
  agent_id = none;
  message_size_bytes = none;
  jsonl_persistence_enabled = none;
  violated_directive = some "img-src";
  trigger = none;
  target_table = none;
  target_chain = none;
  cmdline = none;
}

reads_report :
    from_csp_report python "t"
      (("violated-directive", chars " img-src https://a; b") ∷ [])
      (some "10.0.0.1")
      (some (pos 204))
    ≡ event
unfolding from_csp_report directive_of opt_text get is_truthy partition strip has_char
reads_report = refl

overflows : from_log_record python "t" (("status", other tt) ∷ []) ≡ err int_overflow
unfolding from_log_record opt_int get
overflows = refl

from_log_record-to_metadata_example :
    from_log_record python "u" (to_metadata event) ≡ ok (record event { ts = "u" })
from_log_record-to_metadata_example = from_log_record-to_metadata python "u" event
