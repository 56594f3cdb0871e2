-- ===== src/Soar/Load.antt =====
-- soar/config.py: `load_config`, on the table that the TOML reader has made of the file. Its values,
-- Python's conversions of them and floating-point numbers are parameters.
use Prim.Native.Char.{code}
use zaqorincore.Prelude.{
  ℕ, String, Bool, false, not, ◌&&◌, Option, none, some, List, [], ◌∷◌, map, max, nat_beq, is_empty,
  contains, string_eq, if◌then◌else◌, Result, ok, err, ◌>>=◌, ◌>>◌, raise_if,
}
use zaqorincore.Prelude.Int.{ℤ, pos, negsuc}
use zaqorincore.Dict.{Dict, get, put, has}
use zaqorincore.Soar.Config.{BackendConfig, severity_order}

abbrev pub known_backends : List String
known_backends = "generic_webhook" ∷ "slack" ∷ "discord" ∷ "pagerduty" ∷ "thehive" ∷ "jira" ∷ []

-- What `int` or `float` makes of a value: a number, a TypeError or ValueError, or an OverflowError.
pub data Conversion (N : Type 0) : Type 0 where
  converted : N → Conversion N
  rejected : Conversion N
  overflow : Conversion N

-- The values of the file, with `bool`, `int`, `float`, `str` and the tests for lists and tables; the
-- numbers have their literals and `max`.
pub record Toml : Type 1 where
  pub Value : Type 0
  pub Number : Type 0
  pub truth : Value → Bool
  pub int_of : Value → Conversion ℤ
  pub float_of : Value → Conversion Number
  pub text_of : Value → String
  pub list_of : Value → Option (List Value)
  pub table_of : Value → Option (Dict String Value)
  pub literal : String → Number
  pub larger : Number → Number → Number

-- The AttributeError of `get` on what is no table, the ValueError of an unknown backend, and the
-- OverflowError of a conversion.
pub data LoadError : Type 0 where
  not_a_table : LoadError
  unknown_backend : String → LoadError
  too_large : LoadError

-- max(n, i)
abbrev pub at_least : ℕ → ℤ → ℕ
at_least n (pos m) = max n m
at_least n (negsuc m) = n

abbrev strip_slashes : String → String
strip_slashes String.[] = String.[]
strip_slashes (String.◌∷◌ c s) =
    let rest = strip_slashes s in
    if is_empty rest && nat_beq (code c) b'/' then String.[] else String.◌∷◌ c rest

-- A severity that the order does not have becomes the default.
unfoldable pub known_severity : String → String
known_severity s = if has s severity_order then s else "low"

module _ (t : Toml) where
  pub record Backend : Type 0 where
    pub name : String
    pub config : BackendConfig
    pub timeout_sec : t.Number
    pub extra : Dict String t.Value

  pub record SoarConfig : Type 0 where
    pub enabled : Bool
    pub poll_sec : t.Number
    pub queue_max : ℕ
    pub dead_letter_dir : String
    pub public_base_url : String
    pub backends : Dict String Backend

  abbrev pub coerced : {N : Type 0} → N → Conversion N → Result LoadError N
  coerced default (converted n) = ok n
  coerced default rejected = ok default
  coerced default overflow = err too_large

  abbrev pub coerce_int : ℤ → Option t.Value → Result LoadError ℤ
  coerce_int default none = ok default
  coerce_int default (some v) = coerced default (t.int_of v)

  abbrev pub coerce_float : t.Number → Option t.Value → Result LoadError t.Number
  coerce_float default none = ok default
  coerce_float default (some v) = coerced default (t.float_of v)

  abbrev listed : Option (List t.Value) → List String
  listed none = []
  listed (some vs) = map t.text_of vs

  abbrev pub coerce_list : Option t.Value → List String
  coerce_list none = []
  coerce_list (some v) = listed (t.list_of v)

  abbrev pub truth_of : Option t.Value → Bool
  truth_of none = false
  truth_of (some v) = t.truth v

  abbrev pub text_or : String → Option t.Value → String
  text_or default none = default
  text_or default (some v) = t.text_of v

  abbrev pub reserved : List String
  reserved =
      "enabled" ∷ "cooldown_sec" ∷ "severity_min" ∷ "tags_filter" ∷ "max_retries" ∷ "timeout_sec"
      ∷ []

  abbrev pub extra_of : Dict String t.Value → Dict String t.Value
  extra_of [] = []
  extra_of ((k, v) ∷ block) =
      let rest = extra_of block in if contains k reserved then rest else (k, v) ∷ rest

  -- The block of one backend.
  unfoldable pub backend_of : String → Dict String t.Value → Result LoadError Backend
  unfolding get
  backend_of name block = do
    cooldown ← coerce_int (pos 60) (get "cooldown_sec" block)
    retries ← coerce_int (pos 5) (get "max_retries" block)
    timeout ← coerce_float (t.literal "10.0") (get "timeout_sec" block)
    ok (record {
      name = name;
      config = record {
        enabled = truth_of (get "enabled" block);
        cooldown_sec = at_least 0 cooldown;
        severity_min = known_severity (text_or "low" (get "severity_min" block));
        tags_filter = coerce_list (get "tags_filter" block);
        max_retries = at_least 0 retries;
      };
      timeout_sec = t.larger (t.literal "1.0") timeout;
      extra = extra_of block;
    })

  -- A block that is no table is passed over.
  abbrev pub add_backend :
      String
      → Option (Dict String t.Value)
      → Dict String Backend
      → Result LoadError (Dict String Backend)
  add_backend name none done = ok done
  add_backend name (some block) done = do b ← backend_of name block; ok (put name b done)

  -- The loop over the backends.
  unfoldable pub load_backends :
      Dict String t.Value → Dict String Backend → Result LoadError (Dict String Backend)
  load_backends [] done = ok done
  load_backends ((name, v) ∷ rest) done = do
    raise_if (not (contains name known_backends)) (unknown_backend name)
    next ← add_backend name (t.table_of v) done
    load_backends rest next

  abbrev pub no_config : SoarConfig
  no_config = record {
    enabled = false;
    poll_sec = t.literal "2.0";
    queue_max = 1000;
    dead_letter_dir = "var/soar/dead-letter";
    public_base_url = "";
    backends = [];
  }

  abbrev pub table_at : Option t.Value → Option (Dict String t.Value)
  table_at none = some []
  table_at (some v) = t.table_of v

  abbrev pub or_not_a_table : Option (Dict String t.Value) → Result LoadError (Dict String t.Value)
  or_not_a_table none = err not_a_table
  or_not_a_table (some d) = ok d

  abbrev pub or_no_backends : Option (Dict String t.Value) → Dict String t.Value
  or_no_backends none = []
  or_no_backends (some d) = d

  unfoldable pub load_table : Dict String t.Value → Result LoadError SoarConfig
  unfolding get
  load_table raw = do
    block ← or_not_a_table (table_at (get "soar" raw))
    poll ← coerce_float (t.literal "2.0") (get "poll_sec" block)
    queue ← coerce_int (pos 1000) (get "queue_max" block)
    backends ← load_backends (or_no_backends (table_at (get "backends" raw))) []
    ok (record {
      enabled = truth_of (get "enabled" block);
      poll_sec = t.larger (t.literal "0.1") poll;
      queue_max = at_least 1 queue;
      dead_letter_dir = text_or "var/soar/dead-letter" (get "dead_letter_dir" block);
      public_base_url = strip_slashes (text_or "" (get "public_base_url" block));
      backends = backends;
    })

  -- `load_config`, where `none` is a file that does not exist.
  abbrev pub load_config : Option (Dict String t.Value) → Result LoadError SoarConfig
  load_config none = ok no_config
  load_config (some raw) = load_table raw
