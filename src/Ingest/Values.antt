-- ===== src/Ingest/Values.antt =====
-- api/v1/ingest_webhook.py: the values of JSON as Python has them, and the fields of a record.
use zaqorincore.Prelude.{
  ℕ, String, Bool, true, false, Option, none, some, List, [], ◌∷◌, contains, take_text, string_eq,
  ◌==◌, if◌then◌else◌,
}
use zaqorincore.Dict.{Dict, put}

-- A decoded value; a number is known by its `str`.
mutual
  pub data Json : Type 0 where
    null : Json
    boolean : Bool → Json
    number : String → Json
    text : String → Json
    array : Items → Json
    object : Members → Json

  pub data Items : Type 0 where
    no_items : Items
    item : Json → Items → Items

  pub data Members : Type 0 where
    no_members : Members
    member : String → Json → Members → Members

-- What `_filter_fields` keeps: str | int | float | bool
pub data Scalar : Type 0 where
  flag : Bool → Scalar
  numeral : String → Scalar
  chars : String → Scalar

abbrev pub Record : Type 0
Record = Dict String Scalar

-- d.get(key)
unfoldable pub member_of : String → Members → Option Json
member_of key no_members = none
member_of key (member k v ms) = let later = member_of key ms in if k == key then some v else later

abbrev pub max_metadata_chars : ℕ
max_metadata_chars = 4096

abbrev pub recognised_fields : List String
recognised_fields =
    "src_ip" ∷ "host" ∷ "method" ∷ "uri" ∷ "status" ∷ "user_agent" ∷ "referer" ∷ "country" ∷ "asn"
    ∷ "bot_score" ∷ "waf_action" ∷ "waf_rule_id" ∷ "cache_status" ∷ "occurred_at" ∷ []

-- The value that is stored; `repr` is the `str` of a list or a dict.
abbrev pub coerced : (Json → String) → Json → Option Scalar
coerced repr null = none
coerced repr (boolean b) = some (flag b)
coerced repr (number n) = some (numeral n)
coerced repr (text s) = some (chars s)
coerced repr (array vs) = some (chars (repr (array vs)))
coerced repr (object ms) = some (chars (repr (object ms)))

abbrev pub put_some : String → Option Scalar → Record → Record
put_some k none out = out
put_some k (some v) out = put k v out

unfoldable pub filter_from : (Json → String) → Members → Record → Record
filter_from repr no_members out = out
filter_from repr (member k v ms) out =
    let kept = filter_from repr ms (put_some k (coerced repr v) out) in
    let dropped = filter_from repr ms out in if contains k recognised_fields then kept else dropped

-- `_filter_fields`
unfoldable pub filter_fields : (Json → String) → Members → Record
filter_fields repr ms = filter_from repr ms []

-- str(v)
abbrev pub scalar_text : Scalar → String
scalar_text (flag true) = "True"
scalar_text (flag false) = "False"
scalar_text (numeral n) = n
scalar_text (chars s) = s

-- `_truncate`; no value of a record is None.
unfoldable pub truncate : String → String
truncate s = take_text max_metadata_chars s
