-- ===== src/Detectors/WebTests.antt =====
-- The web-attack detector on two requests, with the keys that were set in place of Redis.
use zaqorincore.Prelude.{
  ℕ, String, Bool, true, not, some, List, [], ◌∷◌, length, contains, string_eq, ==_refl, ◌≡◌, refl,
  arith,
}
use zaqorincore.Detectors.Ssh.{Redis}
use zaqorincore.Detectors.Runner.{ParsedEvent}
use zaqorincore.Detectors.Web.{
  is_http_event, match_patterns, on_tags, cooldown_key, on_http_event, run_web,
}
use zaqorincore.Detectors.WebStorm.{Holds}

abbrev redis : Redis (List String)
redis = record {
  pipeline = λ k lo m t ttl s. (s, some 1);
  set_nx = λ k ttl s. (k ∷ s, some (not (contains k s)));
}

set_exists : (k : String) (s : List String) → contains k (k ∷ s) ≡ true
set_exists k s = rw (==_refl k) refl

set_keeps : (j k : String) (s : List String) → contains j s ≡ true → contains j (k ∷ s) ≡ true
set_keeps j k s h = ground (arith, h)

redis-Holds : Holds redis
redis-Holds = record {
  exists = contains;
  answers = λ k ttl s. refl;
  sets = λ k ttl s. set_exists k s;
  keeps = λ j k ttl s h. set_keeps j k s h;
}

-- Stands for the regular expressions: everything matches.
abbrev anything : String → String → Bool
anything pattern raw = true

abbrev name : ℕ → String
name id = "h"

abbrev request : ParsedEvent
request = record {
  event_id = 1;
  host_id = 2;
  source = "web";
  raw = "GET /?q=<script";
  metadata = ("source", "Nginx") ∷ ("source_ip", "10.0.0.9") ∷ [];
  occurred_at = 0;
}

two_findings : length (run_web anything name redis 300 (request ∷ request ∷ []) []).1 ≡ 2
unfolding run_web on_http_event is_http_event match_patterns on_tags cooldown_key
two_findings = refl
