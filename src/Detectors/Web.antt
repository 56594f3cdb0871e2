-- ===== src/Detectors/Web.antt =====
-- detectors/web_attack.py: signatures of attacks in HTTP events. The regular expressions are searched
-- by a parameter, `id_text` writes a UUID, and SET with NX is the SSH detector's.
use zaqorincore.Prelude.{
  ℕ, String, Bool, true, ◌||◌, Option, none, some, List, [], ◌∷◌, ◌++◌, any, append, has_part,
  has_prefix, is_empty, lower, contains, string_eq, if◌then◌else◌,
}
use zaqorincore.Dict.{get}
use zaqorincore.Detectors.Ssh.{Redis, or_text}
use zaqorincore.Detectors.Runner.{ParsedEvent, text, texts, Finding, Answer, results, take_text}

-- _PATTERNS, by the tag
abbrev pub patterns : List (String × String)
patterns =
    ("sqli", "(?i)(union\\s+select|'\\s*or\\s+'?\\d|or\\s+1=1|--\\s*$|;drop\\s+table)")
    ∷ ("xss", "(?i)(<script|javascript:|onerror\\s*=|onload\\s*=)")
    ∷ ("path_traversal", "(\\.\\./|\\.\\.\\\\|%2e%2e/|%252e%252e/)")
    ∷ ("scanner", "(?i)(sqlmap|nikto|nmap|masscan|wpscan|acunetix)")
    ∷ []

unfoldable pub is_http_event : ParsedEvent → Bool
unfolding get lower has_part has_prefix
is_http_event ev =
    let src = lower (or_text (get "source" ev.metadata)) in
    has_part src "nginx"
    || has_part src "apache"
    || has_part src "http"
    || has_part src "access"
    || any (λ p. has_prefix (lower ev.raw) p) ("get " ∷ "post " ∷ "put " ∷ "delete " ∷ "head " ∷ [])

module _ {S : Type 0} (search : String → String → Bool) (id_text : ℕ → String) (r : Redis S) where
  abbrev pub matching : String → List (String × String) → List String
  matching raw [] = []
  matching raw ((tag, pattern) ∷ ps) =
      let rest = matching raw ps in if search pattern raw then tag ∷ rest else rest

  unfoldable pub match_patterns : ParsedEvent → List String
  match_patterns ev = matching ev.raw patterns

  unfoldable pub cooldown_key : ℕ → String → String → String
  unfolding append
  cooldown_key host ip tag =
      append "zc:rule:web_attack:" (append (id_text host) (append ":" (append ip (append ":" tag))))

  unfoldable pub finding_of : ParsedEvent → ℕ → String → List String → String → Finding
  unfolding append
  finding_of ev cooldown_sec ip tags tag = record {
    detector = "web_attack";
    severity = if contains tag ("sqli" ∷ "scanner" ∷ []) then "high" else "medium";
    summary = append "web attack (" (append tag (append ") from " ip));
    detail =
        ("source_ip", text ip)
        ∷ ("match_tags", texts tags)
        ∷ ("raw_excerpt", text (take_text 500 ev.raw))
        ∷ [];
    dedup_key = append ip (append ":" tag);
    cooldown_sec = cooldown_sec;
    action = some (record { kind = "block_ip"; target = ip; ttl_sec = some 3600 });
  }

  -- Redis failing counts as a key that was acquired.
  abbrev pub acquired : Option Bool → Bool
  acquired none = true
  acquired (some b) = b

  -- The loop over the tags that match.
  unfoldable pub on_tags :
      ParsedEvent → ℕ → String → List String → List String → S → S × List Finding
  on_tags ev cooldown_sec ip tags [] s = (s, [])
  on_tags ev cooldown_sec ip tags (tag ∷ rest) s =
      let (s', answer) = r.set_nx (cooldown_key ev.host_id ip tag) cooldown_sec s in
      let later = on_tags ev cooldown_sec ip tags rest s' in
      if acquired answer then (s', finding_of ev cooldown_sec ip tags tag ∷ []) else later

  abbrev pub on_source : ParsedEvent → ℕ → Option String → S → S × List Finding
  on_source ev cooldown_sec none s = (s, [])
  on_source ev cooldown_sec (some ip) s =
      if is_empty ip
      then (s, [])
      else on_tags ev cooldown_sec ip (match_patterns ev) (match_patterns ev) s

  -- `on_event`; without a match, the loop has nothing to do.
  unfoldable pub on_http_event : ℕ → ParsedEvent → S → S × List Finding
  on_http_event cooldown_sec ev s =
      if is_http_event ev
      then on_source ev cooldown_sec (get "source_ip" ev.metadata) s
      else (s, [])

  -- The detector as the runner calls it.
  abbrev pub web_attack : ℕ → ParsedEvent → S → S × Answer
  web_attack cooldown_sec ev s =
      let (s', found) = on_http_event cooldown_sec ev s in (s', results found)

  -- The detector over a sequence of events: the last state and all findings.
  unfoldable pub run_web : ℕ → List ParsedEvent → S → S × List Finding
  run_web cooldown_sec [] s = (s, [])
  run_web cooldown_sec (ev ∷ evs) s =
      let (s', found) = on_http_event cooldown_sec ev s in
      let (end, more) = run_web cooldown_sec evs s' in (end, found ++ more)
