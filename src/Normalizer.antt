-- ===== src/Normalizer.antt =====
-- self_defense/event_normalizer.py: `ZaqorinEvent`, from log records and CSP reports to the metadata
-- that the rules match.
use zaqorincore.Prelude.{
  ℕ, ◌+◌, String, Bool, true, false, not, ◌||◌, Option, none, some, List, [], ◌∷◌, nat_beq,
  is_empty, append, strip, lower, partition, has_char, contains, decimal, Result, ok, err, ◌>>=◌,
  string_eq, ◌==◌, if◌then◌else◌,
}
use zaqorincore.Prelude.Int.{ℤ, pos, negsuc, int}
use zaqorincore.Dict.{Dict, get, put}
use zaqorincore.Soar.Load.{Conversion, converted, rejected, overflow}
pub mod RoundTrip
mod Tests

-- A value of a record; `other` is a float, a list or a dict.
pub data Value (O : Type 0) : Type 0 where
  nothing : Value O
  boolean : Bool → Value O
  integer : ℤ → Value O
  chars : String → Value O
  other : O → Value O

-- `str`, `int`, the truth and the test for a dict of the other values.
pub record Python (O : Type 0) : Type 0 where
  pub str_of : O → String
  pub int_of : O → Conversion ℤ
  pub is_true : O → Bool
  pub dict_of : O → Option (Dict String (Value O))

pub record ZaqorinEvent : Type 0 where
  pub ts : String
  pub event_type : String
  pub src_ip : Option String
  pub route : Option String
  pub status : Option ℤ
  pub auth_method : Option String
  pub key_id : Option String
  pub agent_id : Option String
  pub message_size_bytes : Option ℤ
  pub jsonl_persistence_enabled : Option Bool
  pub violated_directive : Option String
  pub trigger : Option String
  pub target_table : Option String
  pub target_chain : Option String
  pub cmdline : Option String

-- The OverflowError of `int`, which `_opt_int` lets through.
pub data NormalizerError : Type 0 where
  int_overflow : NormalizerError

module _ {O : Type 0} where
  abbrev pub text_value : Option String → Value O
  text_value none = nothing
  text_value (some s) = chars s

  -- if v is not None: md[key] = v
  unfoldable pub put_value :
      String → Option (Value O) → Dict String (Value O) → Dict String (Value O)
  put_value key none md = md
  put_value key (some v) md = put key v md

  abbrev pub texts : Option String → Option (Value O)
  texts none = none
  texts (some s) = some (chars s)

  abbrev pub integers : Option ℤ → Option (Value O)
  integers none = none
  integers (some n) = some (integer n)

  abbrev pub booleans : Option Bool → Option (Value O)
  booleans none = none
  booleans (some b) = some (boolean b)

  unfoldable pub to_metadata : ZaqorinEvent → Dict String (Value O)
  to_metadata e =
      let md : Dict String (Value O) =
        ("event_type", chars e.event_type) ∷ ("src_ip", text_value e.src_ip) ∷ [] in
      put_value "cmdline" (texts e.cmdline) (
        put_value "target_chain" (texts e.target_chain) (
          put_value "target_table" (texts e.target_table) (
            put_value "trigger" (texts e.trigger) (
              put_value "violated_directive" (texts e.violated_directive) (
                put_value "jsonl_persistence_enabled" (booleans e.jsonl_persistence_enabled) (
                  put_value "message_size_bytes" (integers e.message_size_bytes) (
                    put_value "agent_id" (texts e.agent_id) (
                      put_value "key_id" (texts e.key_id) (
                        put_value "auth_method" (texts e.auth_method) (
                          put_value "status" (integers e.status)
                            (put_value "route" (texts e.route) md)))))))))))

  module _ (py : Python O) where
    abbrev pub int_text : ℤ → String
    int_text (pos n) = decimal n
    int_text (negsuc n) = append "-" (decimal (n + 1))

    abbrev pub is_zero : ℤ → Bool
    is_zero (pos n) = nat_beq n 0
    is_zero (negsuc n) = false

    -- str(v or "")
    unfoldable pub str_or_empty : Option (Value O) → String
    str_or_empty none = ""
    str_or_empty (some nothing) = ""
    str_or_empty (some (boolean b)) = if b then "True" else ""
    str_or_empty (some (integer n)) = if is_zero n then "" else int_text n
    str_or_empty (some (chars s)) = s
    str_or_empty (some (other v)) = if py.is_true v then py.str_of v else ""

    -- v if isinstance(v, str) else None
    unfoldable pub opt_text : Option (Value O) → Option String
    opt_text (some (chars s)) = some s
    opt_text (some nothing) = none
    opt_text (some (boolean b)) = none
    opt_text (some (integer n)) = none
    opt_text (some (other v)) = none
    opt_text none = none

    abbrev pub converted_int : Conversion ℤ → Result NormalizerError (Option ℤ)
    converted_int (converted n) = ok (some n)
    converted_int rejected = ok none
    converted_int overflow = err int_overflow

    unfoldable pub opt_int : Option (Value O) → Result NormalizerError (Option ℤ)
    opt_int none = ok none
    opt_int (some nothing) = ok none
    opt_int (some (boolean b)) = ok (some (pos (if b then 1 else 0)))
    opt_int (some (integer n)) = ok (some n)
    opt_int (some (chars s)) = ok (int s)
    opt_int (some (other v)) = converted_int (py.int_of v)

    abbrev pub bool_of_text : String → Option Bool
    bool_of_text lo =
        if contains lo ("true" ∷ "1" ∷ "yes" ∷ [])
        then some true
        else if contains lo ("false" ∷ "0" ∷ "no" ∷ [])
        then some false
        else none

    unfoldable pub opt_bool : Option (Value O) → Option Bool
    opt_bool (some (boolean b)) = some b
    opt_bool (some (chars s)) = bool_of_text (lower (strip s))
    opt_bool (some nothing) = none
    opt_bool (some (integer n)) = none
    opt_bool (some (other v)) = none
    opt_bool none = none

    unfoldable pub from_log_record :
        String → Dict String (Value O) → Result NormalizerError ZaqorinEvent
    from_log_record now r = do
      status ← opt_int (get "status" r)
      message_size_bytes ← opt_int (get "message_size_bytes" r)
      ok (record {
        ts = now;
        event_type = str_or_empty (get "event_type" r);
        src_ip = opt_text (get "src_ip" r);
        route = opt_text (get "route" r);
        status = status;
        auth_method = opt_text (get "auth_method" r);
        key_id = opt_text (get "key_id" r);
        agent_id = opt_text (get "agent_id" r);
        message_size_bytes = message_size_bytes;
        jsonl_persistence_enabled = opt_bool (get "jsonl_persistence_enabled" r);
        violated_directive = opt_text (get "violated_directive" r);
        trigger = opt_text (get "trigger" r);
        target_table = opt_text (get "target_table" r);
        target_chain = opt_text (get "target_chain" r);
        cmdline = opt_text (get "cmdline" r);
      })

    unfoldable pub is_truthy : Value O → Bool
    is_truthy nothing = false
    is_truthy (boolean b) = b
    is_truthy (integer n) = not (is_zero n)
    is_truthy (chars s) = not (is_empty s)
    is_truthy (other v) = py.is_true v

    -- a or b
    abbrev pub first_truthy : Option (Value O) → Option (Value O) → Option (Value O)
    first_truthy none later = later
    first_truthy (some v) later = if is_truthy v then some v else later

    -- The dict that a value is, or else the body.
    abbrev pub dict_or : Dict String (Value O) → Option (Value O) → Dict String (Value O)
    dict_or body (some (other v)) = elim (py.dict_of v) [ none ↦ body | some d ↦ d ]
    dict_or body (some nothing) = body
    dict_or body (some (boolean b)) = body
    dict_or body (some (integer n)) = body
    dict_or body (some (chars s)) = body
    dict_or body none = body

    abbrev pub or_blank : Option String → String
    or_blank none = ""
    or_blank (some s) = s

    -- s.split(sep, 1)[0].strip()
    abbrev pub first_part : ℕ → String → String
    first_part sep s = let (before, found, after) = partition sep s in strip before

    unfoldable pub directive_of : Option (Value O) → Option String
    directive_of v =
        let first = first_part b';' (or_blank (opt_text v)) in
        let violated = if has_char b' ' first then first_part b' ' first else first in
        if is_empty violated then none else some violated

    unfoldable pub from_csp_report :
        String → Dict String (Value O) → Option String → Option ℤ → ZaqorinEvent
    from_csp_report now body src_ip status =
        let inner = dict_or body (get "csp-report" body) in
        record {
          ts = now;
          event_type = "csp.violation";
          src_ip = src_ip;
          route = some "/api/v1/_csp-report";
          status = status;
          auth_method = none;
          key_id = none;
          agent_id = none;
          message_size_bytes = none;
          jsonl_persistence_enabled = none;
          violated_directive =
              directive_of
                (first_truthy (get "violated-directive" inner) (get "effective-directive" inner));
          trigger = none;
          target_table = none;
          target_chain = none;
          cmdline = none;
        }
