-- ===== src/Soar/LoadTests.antt =====
-- The configuration file of soar/config.py on a concrete file, whose values are texts.
use zaqorincore.Prelude.{
  ℕ, String, Option, none, some, [], ◌∷◌, max, string_eq, ◌==◌, if◌then◌else◌, Result, ok, err, ◌≡◌,
  refl,
}
use zaqorincore.Prelude.Int.{pos}
use zaqorincore.Dict.{Dict, get}
use zaqorincore.Soar.Load.{
  Toml, converted, rejected, LoadError, unknown_backend, no_config, SoarConfig, backend_of,
  load_backends, known_severity, load_table, load_config,
}
use zaqorincore.Soar.Usable.{IsUsable, load_config-IsUsable}

-- The values that stand for tables.
abbrev tables : Dict String (Dict String String)
tables =
    ("{soar}", ("enabled", "yes") ∷ ("queue_max", "0") ∷ [])
    ∷ ("{backends}", ("slack", "{slack}") ∷ ("jira", "3") ∷ [])
    ∷ ("{slack}", ("severity_min", "urgent") ∷ ("max_retries", "many") ∷ ("url", "u") ∷ [])
    ∷ ("{strange}", ("teams", "{slack}") ∷ [])
    ∷ []

unfoldable table_named : String → Option (Dict String String)
unfolding get
table_named v = get v tables

abbrev toml : Toml
toml = record {
  Value = String;
  Number = ℕ;
  truth = λ v. v == "yes";
  int_of = λ v. if v == "0" then converted (pos 0) else rejected;
  float_of = λ v. rejected;
  text_of = λ v. v;
  list_of = λ v. none;
  table_of = table_named;
  literal = λ s. 1;
  larger = max;
}

abbrev file : Dict String String
file = ("soar", "{soar}") ∷ ("backends", "{backends}") ∷ []

abbrev or_none : Result LoadError (SoarConfig toml) → SoarConfig toml
or_none (ok c) = c
or_none (err e) = no_config toml

abbrev config : SoarConfig toml
config = or_none (load_config toml (some file))

loaded : load_config toml (some file) ≡ ok config
unfolding load_table load_backends backend_of known_severity table_named
loaded = refl

-- A maximum of zero becomes one, and a backend that is no table is passed over.
room : config.queue_max ≡ 1
unfolding load_table load_backends backend_of known_severity table_named
room = refl

strange : load_config toml (some (("backends", "{strange}") ∷ [])) ≡ err (unknown_backend "teams")
unfolding load_table load_backends table_named
strange = refl

load_config-IsUsable_example : IsUsable toml config
load_config-IsUsable_example = load_config-IsUsable toml (some file) config loaded
