-- ===== src/Envelope/Tests.antt =====
-- A refused request, whose JSON body becomes an envelope.
use zaqorincore.Prelude.{
  String, List, [], ◌∷◌, ◌++◌, true, false, ok, ◌≡◌, refl, string_eq, nat_eq, lower, strip,
  has_part, has_prefix, text_length, nat_beq,
}
use zaqorincore.Depth.{safe_loads}
use zaqorincore.Dict.{Dict}
use zaqorincore.Ingest.Values.{text, object, member, no_members, member_of}
use zaqorincore.Envelope.{
  Codec, bytes, chunks, Response, is_envelope_enabled, is_excluded_path, drain_body, extract_detail,
}

abbrev first : List String → String
first [] = ""
first (b ∷ bs) = b

abbrev codec : Codec
codec = record {
  Bytes = String;
  size = text_length;
  join = first;
  encode = λ s. s;
  text_of = λ s. s;
  decode = λ s. ok (object (member "detail" (text "no key") no_members));
  dumps = λ v. "...";
  dict_of = λ h. h;
  init_headers = λ e d. d ++ ("content-type", "application/json") ∷ [];
}

abbrev response : Response codec
response = record {
  status_code = 401;
  headers = ("content-type", "application/JSON") ∷ ("content-length", "2") ∷ [];
  body = chunks (bytes "{}" ∷ []);
}

enabled : is_envelope_enabled " TRUE" ≡ true
unfolding is_envelope_enabled lower strip
enabled = refl

included : is_excluded_path "/api/v1/alerts" ≡ false
unfolding is_excluded_path has_prefix
included = refl

excluded : is_excluded_path "/static/a" ≡ true
unfolding is_excluded_path has_prefix
excluded = refl

full : text_length (drain_body codec (bytes "{}" ∷ [])) ≡ 2
unfolding drain_body
full = refl

not_empty : nat_beq (codec.size (drain_body codec (bytes "{}" ∷ []))) 0 ≡ false
unfolding drain_body
not_empty = refl

detail : extract_detail codec "{}" "application/JSON" ≡ "no key"
unfolding extract_detail has_part lower safe_loads member_of
detail = refl
