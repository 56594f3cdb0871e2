-- ===== src/Normalizer/RoundTrip.antt =====
-- A record made from an event's metadata gives the event back.
use zaqorincore.Prelude.{
  String, Bool, Option, none, some, ok, string_eq, ◌==◌, if◌then◌else◌, ◌≡◌, refl, arith,
}
use zaqorincore.Prelude.Int.{ℤ}
use zaqorincore.Dict.{Dict, get, get-put}
use zaqorincore.Normalizer.{
  Value, chars, Python, ZaqorinEvent, text_value, put_value, texts, integers, booleans, to_metadata,
  str_or_empty, opt_text, opt_int, opt_bool, from_log_record,
}

module _ {O : Type 0} where
  abbrev or_value : Option (Value O) → Option (Value O) → Option (Value O)
  or_value none old = old
  or_value (some v) old = some v

  get-put_value :
      (k j : String) (v : Option (Value O)) (md : Dict String (Value O))
      → get j (put_value k v md) ≡ (if k == j then or_value v (get j md) else get j md)
  unfolding put_value
  get-put_value k j none md = ground arith
  get-put_value k j (some v) md = get-put k j v md

  or_value-none : (v : Option (Value O)) → or_value v none ≡ v
  or_value-none none = refl
  or_value-none (some v) = refl

  module _ (e : ZaqorinEvent) where
    abbrev md : Dict String (Value O)
    md = to_metadata e

    get-event_type : get "event_type" md ≡ some (chars e.event_type)
    unfolding to_metadata get
    get-event_type = simp (get-put_value, or_value-none) refl

    get-src_ip : get "src_ip" md ≡ some (text_value e.src_ip)
    unfolding to_metadata get
    get-src_ip = simp (get-put_value, or_value-none) refl

    get-route : get "route" md ≡ texts e.route
    unfolding to_metadata get
    get-route = simp (get-put_value, or_value-none) refl

    get-auth_method : get "auth_method" md ≡ texts e.auth_method
    unfolding to_metadata get
    get-auth_method = simp (get-put_value, or_value-none) refl

    get-key_id : get "key_id" md ≡ texts e.key_id
    unfolding to_metadata get
    get-key_id = simp (get-put_value, or_value-none) refl

    get-agent_id : get "agent_id" md ≡ texts e.agent_id
    unfolding to_metadata get
    get-agent_id = simp (get-put_value, or_value-none) refl

    get-violated_directive : get "violated_directive" md ≡ texts e.violated_directive
    unfolding to_metadata get
    get-violated_directive = simp (get-put_value, or_value-none) refl

    get-trigger : get "trigger" md ≡ texts e.trigger
    unfolding to_metadata get
    get-trigger = simp (get-put_value, or_value-none) refl

    get-target_table : get "target_table" md ≡ texts e.target_table
    unfolding to_metadata get
    get-target_table = simp (get-put_value, or_value-none) refl

    get-target_chain : get "target_chain" md ≡ texts e.target_chain
    unfolding to_metadata get
    get-target_chain = simp (get-put_value, or_value-none) refl

    get-cmdline : get "cmdline" md ≡ texts e.cmdline
    unfolding to_metadata get
    get-cmdline = simp (get-put_value, or_value-none) refl

    get-status : get "status" md ≡ integers e.status
    unfolding to_metadata get
    get-status = simp (get-put_value, or_value-none) refl

    get-message_size_bytes : get "message_size_bytes" md ≡ integers e.message_size_bytes
    unfolding to_metadata get
    get-message_size_bytes = simp (get-put_value, or_value-none) refl

    get-jsonl_persistence_enabled :
        get "jsonl_persistence_enabled" md ≡ booleans e.jsonl_persistence_enabled
    unfolding to_metadata get
    get-jsonl_persistence_enabled = simp (get-put_value, or_value-none) refl

  module _ (py : Python O) where
    opt_text-texts : (v : Option String) → opt_text py (texts v) ≡ v
    unfolding opt_text
    opt_text-texts none = refl
    opt_text-texts (some s) = refl

    opt_text-text_value : (v : Option String) → opt_text py (some (text_value v)) ≡ v
    unfolding opt_text
    opt_text-text_value none = refl
    opt_text-text_value (some s) = refl

    opt_int-integers : (v : Option ℤ) → opt_int py (integers v) ≡ ok v
    unfolding opt_int
    opt_int-integers none = refl
    opt_int-integers (some n) = refl

    opt_bool-booleans : (v : Option Bool) → opt_bool py (booleans v) ≡ v
    unfolding opt_bool
    opt_bool-booleans none = refl
    opt_bool-booleans (some b) = refl

    -- The record that an event's metadata makes gives back the event, but for its time, which is the
    -- time of the reading.
    pub from_log_record-to_metadata :
        (now : String) (e : ZaqorinEvent)
        → from_log_record py now (to_metadata e) ≡ ok (record e { ts = now })
    unfolding from_log_record
    from_log_record-to_metadata now e =
        simp
          (
            get-event_type e,
            get-src_ip e,
            get-route e,
            get-auth_method e,
            get-key_id e,
            get-agent_id e,
            get-violated_directive e,
            get-trigger e,
            get-target_table e,
            get-target_chain e,
            get-cmdline e,
            get-status e,
            get-message_size_bytes e,
            get-jsonl_persistence_enabled e,
            opt_text-texts,
            opt_text-text_value,
            opt_int-integers,
            opt_bool-booleans,
          )
          (unfold str_or_empty in refl)
