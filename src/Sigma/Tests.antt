-- ===== src/Sigma/Tests.antt =====
-- Sigma rules on concrete events, with a small stand-in for Redis and for the engines.
use zaqorincore.Prelude.{
  ℕ, ◌+◌, ◌≡◌, ◌≤◌, ◌↔◌, refl, true, false, Option, none, some, List, [], ◌∷◌, length, arith, leb,
  String, string_eq, ==_refl, contains, all, ok,
}
use zaqorincore.Dict.{Dict, get, put, has}
use zaqorincore.Sigma.Values.{Event, Engine, text, match_selection}
use zaqorincore.Sigma.Rule.{Rule, mapping, matches, render_dedup_key}
use zaqorincore.Sigma.Runner.{Redis, dedup_of}
use zaqorincore.Prelude.{append}
use zaqorincore.Sigma.Exclusion.{Excludes, matches-Excludes}
use zaqorincore.Sigma.Storm.{storm, storm-fires_once}

abbrev engine : Engine
engine = record {
  search = λ p t. some false;
  Number = ℕ;
  float = λ t. none;
  ge = λ a b. leb b a;
  lt = λ a b. leb a b;
}

abbrev event : Event
event = record {
  event_id = "e";
  host_id = "h";
  source = "auth";
  raw = "Failed password";
  metadata = ("user", "root") ∷ [];
}

abbrev rule : Rule
rule = record {
  id = "r";
  title = "Root login";
  level = "high";
  selection = ("source", text "auth") ∷ [];
  detection =
      ("selection", mapping (("source", text "auth") ∷ []))
      ∷ ("filter", mapping (("user", text "guest") ∷ []))
      ∷ [];
  condition = "selection and not filter";
  count = 1;
  timeframe_sec = 60;
  cooldown_sec = 300;
  dedup_key = "{{user}}";
  action = none;
  required_fields = "user" ∷ [];
}

rule_matches : matches engine rule event ≡ ok true
unfolding matches
rule_matches = refl

matches-Excludes_example : (matches engine rule event ≡ ok true) ↔ (
    (all (λ field. has field event.metadata) rule.required_fields ≡ true)
    × (match_selection engine event rule.selection ≡ ok true)
    × Excludes engine event rule "filter")
unfolding append
matches-Excludes_example = matches-Excludes engine event rule "filter" (refl, refl) refl

-- The keys that were set, and the number of members of each sorted set.
abbrev Store : Type 0
Store = List String × Dict String ℕ

abbrev or_zero : Option ℕ → ℕ
or_zero none = 0
or_zero (some n) = n

abbrev store : Redis Store
store = record {
  zremrangebyscore = λ k lo hi s. s;
  zcard = λ k s. or_zero (get k s.1);
  zadd = λ k m t s. (s.0, put k (or_zero (get k s.1) + 1) s.1);
  expire = λ k ttl s. s;
  exists = λ k s. contains k s.0;
  set_ex = λ k v ttl s. (k ∷ s.0, s.1);
}

store_exists : (k : String) (xs : List String) → contains k (k ∷ xs) ≡ true
store_exists k xs = rw (==_refl k) refl

same_key : dedup_of rule event ≡ "root"
unfolding render_dedup_key
same_key = refl

storm-fires_once_example :
    length (storm store engine rule ((event, 5) ∷ (event, 6) ∷ []) ([], [])).1 ≤ 1
storm-fires_once_example =
    storm-fires_once store engine rule (omega arith) (λ k v ttl s pos. store_exists k s.0) "root"
      ((event, 5) ∷ (event, 6) ∷ []) ([], []) (same_key, (same_key, tt))
