-- ===== src/Detectors/Ssh.antt =====
-- detectors/ssh_bruteforce.py: the failed SSH logins of one address in a sliding window.
use zaqorincore.Prelude.{
  ◌≡◌, refl, ℕ, zero, suc, ◌*◌, max, String, Bool, true, false, ◌||◌, Option, none, some, List, [],
  ◌∷◌, ltb, nat_beq, if◌then◌else◌, string_eq, contains, and_then, append, decimal, has_prefix,
  is_empty, text_length, strip, lower, is_space,
}
use zaqorincore.Prelude.Int.{ℤ, is_digit}
use zaqorincore.Dict.{get}
use zaqorincore.Sigma.Values.{Event, drop_text}
use zaqorincore.Sigma.Runner.{minus}
use Prim.Native.Char.{code}

-- The rest of the text after a literal start.
abbrev after : String → String → Option String
after p s = if has_prefix s p then some (drop_text (text_length p) s) else none

-- \S+, which is all up to the next white space
unfoldable pub skip_word : String → String
unfolding is_space
skip_word String.[] = String.[]
skip_word (String.◌∷◌ c s) =
    let rest = skip_word s in if is_space (code c) then String.◌∷◌ c s else rest

-- At most n digits, and the rest.
unfoldable pub take_digits : ℕ → String → String × String
unfolding is_digit
take_digits zero s = (String.[], s)
take_digits (suc n) String.[] = (String.[], String.[])
take_digits (suc n) (String.◌∷◌ c s) =
    let (ds, rest) = take_digits n s in
    if is_digit (code c) then (String.◌∷◌ c ds, rest) else (String.[], String.◌∷◌ c s)

-- \d{1,3}(?:\.\d{1,3}){n}
unfoldable pub read_numbers : ℕ → String → Option String
unfolding take_digits append
read_numbers zero s = let (ds, rest) = take_digits 3 s in if is_empty ds then none else some ds
read_numbers (suc n) s =
    let (ds, rest) = take_digits 3 s in
    let later = and_then (after "." rest) (λ t. read_numbers n t) in
    if is_empty ds then none else and_then later (λ more. some (append ds (append "." more)))

abbrev or_same : String → Option String → String
or_same s none = s
or_same s (some t) = t

-- The pattern of a failed login, at the start of the text: its address. The optional part can only
-- match where it is there, since a user cannot be followed by ` user `.
unfoldable pub failed_here : String → Option String
unfolding skip_word read_numbers
failed_here s = and_then (after "Failed password for " s) (λ t.
    let user = or_same t (after "invalid user " t) in
    let rest = skip_word user in
    if nat_beq (text_length rest) (text_length user)
    then none
    else and_then (after " from " rest) (λ u. read_numbers 3 u))

abbrev first_of : Option String → Option String → Option String
first_of none later = later
first_of (some ip) later = some ip

-- _SSH_FAILED_RE.search
unfoldable pub search_failed : String → Option String
unfolding failed_here
search_failed String.[] = none
search_failed (String.◌∷◌ c s) = first_of (failed_here (String.◌∷◌ c s)) (search_failed s)

abbrev pub or_text : Option String → String
or_text none = ""
or_text (some s) = s

unfoldable pub extract_source_ip : Event → Option String
unfolding get strip search_failed
extract_source_ip ev =
    let ip = or_text (get "source_ip" ev.metadata) in
    if is_empty ip then search_failed ev.raw else some (strip ip)

abbrev is_found : Option String → Bool
is_found none = false
is_found (some ip) = true

unfoldable pub is_failed_login : Event → Bool
unfolding get lower search_failed
is_failed_login ev =
    contains (lower (or_text (get "status" ev.metadata))) ("failed" ∷ "failure" ∷ "invalid" ∷ [])
    || is_found (search_failed ev.raw)

unfoldable pub window_key : String → String → String
unfolding append
window_key host_id ip = append "zc:rule:ssh_bruteforce:" (append host_id (append ":" ip))

-- The calls of Redis, which may fail (`none`): the pipeline, which drops the members up to the cutoff,
-- adds one, counts and sets the time to live; and SET with NX, which says whether it has set the key.
pub record Redis (S : Type 0) : Type 0 where
  pub pipeline : String → ℤ → String → ℕ → ℕ → S → S × Option ℕ
  pub set_nx : String → ℕ → S → S × Option Bool

pub record Settings : Type 0 where
  pub threshold : ℕ
  pub window_sec : ℕ
  pub cooldown_sec : ℕ

-- DetectionResult, with its detail and its action; the detector and the severity are fixed.
pub record Detection : Type 0 where
  pub summary : String
  pub source_ip : String
  pub window_sec : ℕ
  pub threshold : ℕ
  pub observed_count : ℕ
  pub host_id : String
  pub event_id : String
  pub cooldown_sec : ℕ
  pub dedup_key : String
  pub action_kind : String
  pub action_target : String
  pub action_ttl_sec : ℕ

unfoldable pub cooldown_of : Settings → ℕ
cooldown_of cfg = max cfg.cooldown_sec (cfg.window_sec * 5)

unfoldable pub detection : Settings → Event → String → ℕ → Detection
unfolding append cooldown_of
detection cfg ev ip count = record {
  summary = append "SSH brute-force from " (
      append ip (
        append ": " (
          append (decimal count)
            (append " failed logins in " (append (decimal cfg.window_sec) "s")))));
  source_ip = ip;
  window_sec = cfg.window_sec;
  threshold = cfg.threshold;
  observed_count = count;
  host_id = ev.host_id;
  event_id = ev.event_id;
  cooldown_sec = cooldown_of cfg;
  dedup_key = ip;
  action_kind = "block_ip";
  action_target = ip;
  action_ttl_sec = 3600;
}

-- A failure of the cooldown's SET counts as set.
abbrev or_fire : Option Bool → Bool
or_fire none = true
or_fire (some set) = set

unfoldable pub cooldown_key : String → String
unfolding append
cooldown_key key = append key ":cooldown"

module _ {S : Type 0} (redis : Redis S) (cfg : Settings) where
  -- What follows the pipeline.
  unfoldable pub on_count : Event → String → Option ℕ → S → S × List Detection
  unfolding window_key cooldown_key detection cooldown_of
  on_count ev ip none s = (s, [])
  on_count ev ip (some count) s =
      let (s', set) = redis.set_nx (cooldown_key (window_key ev.host_id ip)) (cooldown_of cfg) s in
      if ltb count cfg.threshold
      then (s, [])
      else if or_fire set
      then (s', detection cfg ev ip count ∷ [])
      else (s', [])

  unfoldable pub on_ip : Event → ℕ → String → S → S × List Detection
  unfolding on_count
  on_ip ev now ip s =
      let (s', count) =
        redis.pipeline (window_key ev.host_id ip) (minus now cfg.window_sec) ev.event_id now
          (cooldown_of cfg) s in
      if is_empty ip then (s, []) else on_count ev ip count s'

  -- `on_event`, where `now` is the event's time in whole seconds
  unfoldable pub on_event : Event → ℕ → S → S × List Detection
  unfolding is_failed_login extract_source_ip on_ip
  on_event ev now s =
      if is_failed_login ev then on_ip ev now (or_text (extract_source_ip ev)) s else (s, [])

search_example :
    search_failed "sshd[7]: Failed password for invalid user bob from 10.0.0.12 port 22 ssh2"
    ≡ some "10.0.0.12"
unfolding search_failed has_prefix
search_example = refl
