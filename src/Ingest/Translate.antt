-- ===== src/Ingest/Translate.antt =====
-- api/v1/ingest_webhook.py: the translators of the vendors' envelopes.
use zaqorincore.Prelude.{
  ℕ, String, Bool, Option, none, some, List, [], ◌∷◌, is_empty, take_text, lower, Result, ok,
  string_eq, ◌==◌, if◌then◌else◌,
}
use zaqorincore.Depth.{DecodeError, safe_loads}
use zaqorincore.Ingest.Values.{
  Json, text, array, object, Items, no_items, item, Members, chars, Record, member_of,
  max_metadata_chars, filter_fields,
}
use zaqorincore.Ingest.KeyValues.{findall}

-- What the library does: `str` of lists and dicts, the JSON decoder, and the class of `\w`.
pub record Library : Type 0 where
  pub repr : Json → String
  pub decode : String → Result DecodeError Json
  pub is_word : ℕ → Bool

-- The records and the source that the vendor gives.
abbrev pub Translated : Type 0
Translated = List Record × String

-- a or b or "generic"
abbrev pub or_generic : Option String → String
or_generic none = "generic"
or_generic (some s) = if is_empty s then "generic" else s

abbrev pub vendor_or : Option String → Option String → String
vendor_or none header = or_generic header
vendor_or (some v) header = if is_empty v then or_generic header else v

module _ (l : Library) where
  abbrev pub dict_record : Json → List Record → List Record
  dict_record (object ms) rest = filter_fields l.repr ms ∷ rest
  dict_record _ rest = rest

  unfoldable pub dict_records : Items → List Record
  dict_records no_items = []
  dict_records (item v vs) = dict_record v (dict_records vs)

  abbrev pub events_of : Members → Option Json → Translated
  events_of body none = (filter_fields l.repr body ∷ [], "")
  events_of body (some (array vs)) = (dict_records vs, "")
  events_of body (some _) = ([], "")

  unfoldable pub translate_generic : Members → Translated
  unfolding dict_records member_of
  translate_generic body = events_of body (member_of "events" body)

  abbrev pub sourcetype_of : Option Json → String
  sourcetype_of (some (text s)) = s
  sourcetype_of _ = ""

  abbrev pub splunk_event : Members → Option Json → Translated
  splunk_event body (some (object inner)) =
      (filter_fields l.repr inner ∷ [], sourcetype_of (member_of "sourcetype" body))
  splunk_event body _ = ([], "")

  unfoldable pub translate_splunk_hec : Members → Translated
  unfolding member_of
  translate_splunk_hec body = splunk_event body (member_of "event" body)

  abbrev pub source_record : Option Json → List Record → List Record
  source_record (some (object src)) rest = filter_fields l.repr src ∷ rest
  source_record _ rest = rest

  abbrev pub hit_record : Json → List Record → List Record
  hit_record (object hit) rest = source_record (member_of "_source" hit) rest
  hit_record _ rest = rest

  unfoldable pub hit_records : Items → List Record
  hit_records no_items = []
  hit_records (item v vs) = hit_record v (hit_records vs)

  abbrev pub inner_hits : Option Json → Translated
  inner_hits (some (array vs)) = (hit_records vs, "")
  inner_hits _ = ([], "")

  abbrev pub outer_hits : Option Json → Translated
  outer_hits (some (object hits)) = inner_hits (member_of "hits" hits)
  outer_hits _ = ([], "")

  unfoldable pub translate_elastic_webhook : Members → Translated
  unfolding hit_records member_of
  translate_elastic_webhook body = outer_hits (member_of "hits" body)

  -- dict(pairs), in front of the fields that are there
  unfoldable pub members_from : List (String × String) → Members → Members
  members_from [] ms = ms
  members_from ((k, v) ∷ pairs) ms = Members.member k (text v) (members_from pairs ms)

  abbrev pub pairs_record : String → List (String × String) → Record
  pairs_record msg [] = ("user_agent", chars (take_text max_metadata_chars msg)) ∷ []
  pairs_record msg (p ∷ pairs) = filter_fields l.repr (members_from (p ∷ pairs) Members.no_members)

  abbrev pub parsed_record : String → Result DecodeError Json → Record
  parsed_record msg (ok (object ms)) = filter_fields l.repr ms
  parsed_record msg _ = pairs_record msg (findall l.is_word msg)

  abbrev pub message_record : Option Json → List Record → List Record
  message_record (some (text msg)) rest = parsed_record msg (safe_loads l.decode msg) ∷ rest
  message_record _ rest = rest

  abbrev pub sumo_record : Json → List Record → List Record
  sumo_record (object rec) rest = message_record (member_of "message" rec) rest
  sumo_record _ rest = rest

  unfoldable pub sumo_records : Items → List Record
  sumo_records no_items = []
  sumo_records (item v vs) = sumo_record v (sumo_records vs)

  abbrev pub records_field : Option Json → Translated
  records_field (some (array vs)) = (sumo_records vs, "")
  records_field _ = ([], "")

  unfoldable pub translate_sumo_logic : Members → Translated
  unfolding sumo_records member_of
  translate_sumo_logic body = records_field (member_of "records" body)

  -- VENDOR_TRANSLATORS.get(name, _translate_generic)
  unfoldable pub translator_named : String → Members → Translated
  unfolding translate_generic translate_splunk_hec translate_elastic_webhook translate_sumo_logic
  translator_named name body =
      if name == "splunk_hec"
      then translate_splunk_hec body
      else if name == "elastic_webhook"
      then translate_elastic_webhook body
      else if name == "sumo_logic"
      then translate_sumo_logic body
      else translate_generic body

  unfoldable pub pick_translator : Option String → Option String → Members → Translated
  unfolding lower
  pick_translator vendor header_source = translator_named (lower (vendor_or vendor header_source))
