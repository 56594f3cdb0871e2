-- ===== src/Ingest/Unique.antt =====
-- The records of the translators of api/v1/ingest_webhook.py have each field once.
use zaqorincore.Prelude.{
  String, Option, none, some, List, [], ◌∷◌, All, lower, ◌==◌, Result, ok, err, inl, inr, refl,
  Bool-cases, nat_eq, string_eq,
}
use zaqorincore.Dict.{get, IsDict, put-IsDict}
use zaqorincore.Depth.{DecodeError, safe_loads}
use zaqorincore.Ingest.Values.{
  Json, null, boolean, number, text, array, object, Items, no_items, item, Members, no_members,
  member, member_of, Scalar, Record, filter_from, filter_fields, put_some, coerced,
  recognised_fields,
}
use zaqorincore.Ingest.KeyValues.{findall}
use zaqorincore.Ingest.Translate.{
  Library, dict_record, dict_records, events_of, translate_generic, splunk_event,
  translate_splunk_hec, source_record, hit_record, hit_records, inner_hits, outer_hits,
  translate_elastic_webhook, members_from, pairs_record, parsed_record, message_record, sumo_record,
  sumo_records, records_field, translate_sumo_logic, translator_named, pick_translator, vendor_or,
}
use zaqorincore.Prelude.{contains}

module _ (l : Library) where
  put_some-IsDict :
      (k : String) (v : Option Scalar) (out : Record) → IsDict out → IsDict (put_some k v out)
  put_some-IsDict k none out h = h
  put_some-IsDict k (some v) out h = put-IsDict k v out h

  filter_from-IsDict :
      (ms : Members) (out : Record) → IsDict out → IsDict (filter_from l.repr ms out)
  unfolding filter_from
  filter_from-IsDict no_members out h = h
  filter_from-IsDict (member k v ms) out h = elim (Bool-cases (contains k recognised_fields)) [
    | inl e ↦ rw e (
        filter_from-IsDict ms (put_some k (coerced l.repr v) out)
          (put_some-IsDict k (coerced l.repr v) out h))
    | inr e ↦ rw e (filter_from-IsDict ms out h)
  ]

  filter_fields-IsDict : (ms : Members) → IsDict (filter_fields l.repr ms)
  unfolding filter_fields
  filter_fields-IsDict ms = filter_from-IsDict ms [] tt

  dict_record-IsDict :
      (v : Json) (rest : List Record) → All IsDict rest → All IsDict (dict_record l v rest)
  dict_record-IsDict null rest h = h
  dict_record-IsDict (boolean b) rest h = h
  dict_record-IsDict (number s) rest h = h
  dict_record-IsDict (text s) rest h = h
  dict_record-IsDict (array vs) rest h = h
  dict_record-IsDict (object ms) rest h = (filter_fields-IsDict ms, h)

  dict_records-IsDict : (vs : Items) → All IsDict (dict_records l vs)
  unfolding dict_records
  dict_records-IsDict no_items = tt
  dict_records-IsDict (item v vs) =
      dict_record-IsDict v (dict_records l vs) (dict_records-IsDict vs)

  translate_generic-IsDict : (body : Members) → All IsDict (translate_generic l body).0
  unfolding translate_generic
  translate_generic-IsDict body = events (member_of "events" body)
    where
      events : (o : Option Json) → All IsDict (events_of l body o).0
      events none = (filter_fields-IsDict body, tt)
      events (some null) = tt
      events (some (boolean b)) = tt
      events (some (number s)) = tt
      events (some (text s)) = tt
      events (some (array vs)) = dict_records-IsDict vs
      events (some (object ms)) = tt

  translate_splunk_hec-IsDict : (body : Members) → All IsDict (translate_splunk_hec l body).0
  unfolding translate_splunk_hec
  translate_splunk_hec-IsDict body = event (member_of "event" body)
    where
      event : (o : Option Json) → All IsDict (splunk_event l body o).0
      event none = tt
      event (some null) = tt
      event (some (boolean b)) = tt
      event (some (number n)) = tt
      event (some (text s)) = tt
      event (some (array vs)) = tt
      event (some (object ms)) = (filter_fields-IsDict ms, tt)

  source_record-IsDict :
      (o : Option Json) (rest : List Record) → All IsDict rest → All IsDict (source_record l o rest)
  source_record-IsDict none rest h = h
  source_record-IsDict (some null) rest h = h
  source_record-IsDict (some (boolean b)) rest h = h
  source_record-IsDict (some (number n)) rest h = h
  source_record-IsDict (some (text s)) rest h = h
  source_record-IsDict (some (array vs)) rest h = h
  source_record-IsDict (some (object ms)) rest h = (filter_fields-IsDict ms, h)

  hit_record-IsDict :
      (v : Json) (rest : List Record) → All IsDict rest → All IsDict (hit_record l v rest)
  hit_record-IsDict null rest h = h
  hit_record-IsDict (boolean b) rest h = h
  hit_record-IsDict (number n) rest h = h
  hit_record-IsDict (text s) rest h = h
  hit_record-IsDict (array vs) rest h = h
  hit_record-IsDict (object ms) rest h = source_record-IsDict (member_of "_source" ms) rest h

  hit_records-IsDict : (vs : Items) → All IsDict (hit_records l vs)
  unfolding hit_records
  hit_records-IsDict no_items = tt
  hit_records-IsDict (item v vs) = hit_record-IsDict v (hit_records l vs) (hit_records-IsDict vs)

  inner_hits-IsDict : (o : Option Json) → All IsDict (inner_hits l o).0
  inner_hits-IsDict none = tt
  inner_hits-IsDict (some null) = tt
  inner_hits-IsDict (some (boolean b)) = tt
  inner_hits-IsDict (some (number n)) = tt
  inner_hits-IsDict (some (text s)) = tt
  inner_hits-IsDict (some (array vs)) = hit_records-IsDict vs
  inner_hits-IsDict (some (object ms)) = tt

  outer_hits-IsDict : (o : Option Json) → All IsDict (outer_hits l o).0
  outer_hits-IsDict none = tt
  outer_hits-IsDict (some null) = tt
  outer_hits-IsDict (some (boolean b)) = tt
  outer_hits-IsDict (some (number n)) = tt
  outer_hits-IsDict (some (text s)) = tt
  outer_hits-IsDict (some (array vs)) = tt
  outer_hits-IsDict (some (object ms)) = inner_hits-IsDict (member_of "hits" ms)

  pairs_record-IsDict :
      (msg : String) (pairs : List (String × String)) → IsDict (pairs_record l msg pairs)
  unfolding get
  pairs_record-IsDict msg [] = (refl, tt)
  pairs_record-IsDict msg (p ∷ pairs) = filter_fields-IsDict (members_from l (p ∷ pairs) no_members)

  parsed_record-IsDict :
      (msg : String) (r : Result DecodeError Json) → IsDict (parsed_record l msg r)
  parsed_record-IsDict msg (err e) = pairs_record-IsDict msg (findall l.is_word msg)
  parsed_record-IsDict msg (ok null) = pairs_record-IsDict msg (findall l.is_word msg)
  parsed_record-IsDict msg (ok (boolean b)) = pairs_record-IsDict msg (findall l.is_word msg)
  parsed_record-IsDict msg (ok (number n)) = pairs_record-IsDict msg (findall l.is_word msg)
  parsed_record-IsDict msg (ok (text s)) = pairs_record-IsDict msg (findall l.is_word msg)
  parsed_record-IsDict msg (ok (array vs)) = pairs_record-IsDict msg (findall l.is_word msg)
  parsed_record-IsDict msg (ok (object ms)) = filter_fields-IsDict ms

  message_record-IsDict :
      (o : Option Json) (rest : List Record)
      → All IsDict rest
      → All IsDict (message_record l o rest)
  message_record-IsDict none rest h = h
  message_record-IsDict (some null) rest h = h
  message_record-IsDict (some (boolean b)) rest h = h
  message_record-IsDict (some (number n)) rest h = h
  message_record-IsDict (some (text s)) rest h = (parsed_record-IsDict s (safe_loads l.decode s), h)
  message_record-IsDict (some (array vs)) rest h = h
  message_record-IsDict (some (object ms)) rest h = h

  sumo_record-IsDict :
      (v : Json) (rest : List Record) → All IsDict rest → All IsDict (sumo_record l v rest)
  sumo_record-IsDict null rest h = h
  sumo_record-IsDict (boolean b) rest h = h
  sumo_record-IsDict (number n) rest h = h
  sumo_record-IsDict (text s) rest h = h
  sumo_record-IsDict (array vs) rest h = h
  sumo_record-IsDict (object ms) rest h = message_record-IsDict (member_of "message" ms) rest h

  sumo_records-IsDict : (vs : Items) → All IsDict (sumo_records l vs)
  unfolding sumo_records
  sumo_records-IsDict no_items = tt
  sumo_records-IsDict (item v vs) =
      sumo_record-IsDict v (sumo_records l vs) (sumo_records-IsDict vs)

  records_field-IsDict : (o : Option Json) → All IsDict (records_field l o).0
  records_field-IsDict none = tt
  records_field-IsDict (some null) = tt
  records_field-IsDict (some (boolean b)) = tt
  records_field-IsDict (some (number n)) = tt
  records_field-IsDict (some (text s)) = tt
  records_field-IsDict (some (array vs)) = sumo_records-IsDict vs
  records_field-IsDict (some (object ms)) = tt

  translator_named-IsDict :
      (name : String) (body : Members) → All IsDict (translator_named l name body).0
  unfolding translator_named
  translator_named-IsDict name body = elim (Bool-cases (name == "splunk_hec")) [
    | inl e ↦ rw e (translate_splunk_hec-IsDict body)
    | inr e ↦ elim (Bool-cases (name == "elastic_webhook")) [
      | inl f ↦
          rw (e, f) (unfold translate_elastic_webhook in outer_hits-IsDict (member_of "hits" body))
      | inr f ↦ elim (Bool-cases (name == "sumo_logic")) [
        | inl g ↦
            rw (e, f, g)
              (unfold translate_sumo_logic in records_field-IsDict (member_of "records" body))
        | inr g ↦ rw (e, f, g) (translate_generic-IsDict body)
      ]
    ]
  ]

  pub pick_translator-IsDict :
      (vendor header : Option String) (body : Members)
      → All IsDict (pick_translator l vendor header body).0
  unfolding pick_translator
  pick_translator-IsDict vendor header body =
      translator_named-IsDict (lower (vendor_or vendor header)) body
