-- ===== src/Provision/Config.antt =====
-- The lines of a rendered `agent.toml`: no value of it reaches past its line.
use zaqorincore.Prelude.{
  Bool-cases, inl, inr, String, Bool, true, false, not, ◌&&◌, ◌||◌, List, [], ◌∷◌, ◌++◌, map,
  append, has_char, split, append-nil, append_assoc, if◌then◌else◌, ok, raise_if->>-eq-ok,
  ok-injective, ◌≡◌, refl, sym, ◌∙◌, ap, arith, ltb,
}
use zaqorincore.Provision.Quoting.{template_too_large, last_is, join, toml_quote}
use zaqorincore.Provision.Template.{
  is_windows, os_text, arch_text, Os, linux, macos, windows, Arch, amd64, arm64, Row, Template,
  setting, table_chunks, toml_array_of_tables, sources_of, strip_newlines, head_sections,
  tail_sections, render_agent_toml, utf8_length, max_template_bytes,
}
use zaqorincore.Provision.Lines.{
  split-append, split-plain, has_char-append, ends_plain, ends_plain-append, strip_newlines-plain,
  strip_newlines-newline, has_char-toml_quote, ends_plain-toml_quote,
}

abbrev lines_of : List String → List String
lines_of [] = []
lines_of (p ∷ ps) = split b'\n' p ++ lines_of ps

lines_of-++ : (ps qs : List String) → lines_of (ps ++ qs) ≡ lines_of ps ++ lines_of qs
lines_of-++ [] qs = refl
lines_of-++ (p ∷ ps) qs =
    rw (lines_of-++ ps qs) (sym (append_assoc (split b'\n' p) (lines_of ps) (lines_of qs)))

split-join : (p : String) (ps : List String) → split b'\n' (join "\n" (p ∷ ps)) ≡ lines_of (p ∷ ps)
unfolding join
split-join p [] = sym (append-nil (split b'\n' p))
split-join p (q ∷ ps) =
    split-append p (join "\n" (q ∷ ps)) ∙ ap (λ l. split b'\n' p ++ l) (split-join q ps)

abbrev all_plain : List String → Bool
all_plain [] = true
all_plain (p ∷ ps) = not (has_char b'\n' p) && all_plain ps

lines_of-plain : (ps : List String) → all_plain ps ≡ true → lines_of ps ≡ ps
lines_of-plain [] h = refl
lines_of-plain (p ∷ ps) h =
    rw (split-plain p (ground (arith, h)), lines_of-plain ps (ground (arith, h))) refl

-- No key has a newline.
abbrev pub keys_plain : Row → Bool
keys_plain [] = true
keys_plain ((k, v) ∷ row) = not (has_char b'\n' k) && keys_plain row

abbrev pub all_keys_plain : List Row → Bool
all_keys_plain [] = true
all_keys_plain (row ∷ rows) = keys_plain row && all_keys_plain rows

-- What the log sources show as, line by line.
abbrev pub source_lines : List Row → List String
source_lines [] = []
source_lines (row ∷ rows) = "" ∷ "[[log_source]]" ∷ map setting row ++ source_lines rows

abbrev pub shown_sources : List Row → List String
shown_sources [] = "" ∷ []
shown_sources (row ∷ rows) = source_lines (row ∷ rows)

setting-plain : (k v : String) → has_char b'\n' k ≡ false → has_char b'\n' (setting (k, v)) ≡ false
unfolding setting
setting-plain k v h =
    rw
      (
        has_char-append b'\n' k (append " = " (toml_quote v)),
        h,
        has_char-append b'\n' " = " (toml_quote v),
        has_char-toml_quote v,
      )
      (unfold has_char in refl)

settings-plain : (row : Row) → keys_plain row ≡ true → all_plain (map setting row) ≡ true
settings-plain [] h = refl
settings-plain ((k, v) ∷ row) h =
    rw (setting-plain k v (ground (arith, h)), settings-plain row (ground (arith, h))) refl

lines_of-table_chunks :
    (rows : List Row)
    → all_keys_plain rows ≡ true
    → lines_of (table_chunks rows) ≡ source_lines rows
unfolding table_chunks
lines_of-table_chunks [] h = refl
lines_of-table_chunks (row ∷ rows) h =
    rw
      (
        lines_of-++ (map setting row) (table_chunks rows),
        lines_of-plain (map setting row) (settings-plain row (ground (arith, h))),
        lines_of-table_chunks rows (ground (arith, h)),
      )
      (unfold split in refl)

abbrev all_end : List String → Bool
all_end [] = true
all_end (p ∷ ps) = ends_plain p && all_end ps

all_end-++ :
    (ps qs : List String) → all_end ps ≡ true → all_end qs ≡ true → all_end (ps ++ qs) ≡ true
all_end-++ [] qs g h = h
all_end-++ (p ∷ ps) qs g h = ground (arith, g, all_end-++ ps qs (ground (arith, g)) h)

settings-end : (row : Row) → all_end (map setting row) ≡ true
unfolding setting
settings-end [] = refl
settings-end ((k, v) ∷ row) =
    rw
      (ends_plain-append k (append " = " (toml_quote v))
        (ends_plain-append " = " (toml_quote v) (ends_plain-toml_quote v)))
      (settings-end row)

table_chunks-end : (rows : List Row) → all_end (table_chunks rows) ≡ true
unfolding table_chunks last_is
table_chunks-end [] = refl
table_chunks-end (row ∷ rows) =
    all_end-++ (map setting row) (table_chunks rows) (settings-end row) (table_chunks-end rows)

join-end :
    (p : String) (ps : List String)
    → all_end (p ∷ ps) ≡ true
    → ends_plain (join "\n" (p ∷ ps)) ≡ true
unfolding join
join-end p [] h = ground (arith, h)
join-end p (q ∷ ps) h =
    ends_plain-append p (append "\n" (join "\n" (q ∷ ps)))
      (ends_plain-append "\n" (join "\n" (q ∷ ps)) (join-end q ps (ground (arith, h))))

sources-lines :
    (rows : List Row)
    → all_keys_plain rows ≡ true
    → split b'\n' (strip_newlines (toml_array_of_tables rows)) ≡ shown_sources rows
unfolding toml_array_of_tables table_chunks
sources-lines [] h = unfold strip_newlines split append join in refl
sources-lines (row ∷ rows) h =
    let chunks = map setting row ++ table_chunks rows in
    let first : String = "\n[[log_source]]" in
    ap (split b'\n') (
      strip_newlines-newline (join "\n" (first ∷ chunks))
      ∙ strip_newlines-plain (join "\n" (first ∷ chunks))
          (join-end first chunks (table_chunks-end (row ∷ rows))))
    ∙ split-join first chunks
    ∙ lines_of-table_chunks (row ∷ rows) h

platform-plain :
    (os : Os) (arch : Arch)
    → has_char b'\n' (append "# OS: " (append (os_text os) (append "    Arch: " (arch_text arch))))
      ≡ false
unfolding has_char append
platform-plain linux amd64 = refl
platform-plain linux arm64 = refl
platform-plain macos amd64 = refl
platform-plain macos arm64 = refl
platform-plain windows amd64 = refl
platform-plain windows arm64 = refl

value-plain :
    (name value : String)
    → has_char b'\n' name ≡ false
    → has_char b'\n' (append name (toml_quote value)) ≡ false
value-plain name value h =
    rw (has_char-append b'\n' name (toml_quote value), h, has_char-toml_quote value) refl

state_dir-plain :
    (b : Bool)
    → has_char b'\n' (
        if b
        then "state_dir = \"C:\\\\ProgramData\\\\zaqorin-agent\""
        else "state_dir = \"/var/lib/zaqorin-agent\"")
      ≡ false
unfolding has_char
state_dir-plain true = refl
state_dir-plain false = refl

head_sections-plain : (t : Template) → all_plain (head_sections t) ≡ true
unfolding head_sections
head_sections-plain t =
    rw
      (
        platform-plain t.os t.arch,
        value-plain "server_url = " t.server_url (unfold has_char in refl),
        value-plain "agent_id    = " t.agent_id (unfold has_char in refl),
        value-plain "auth_token  = " t.auth_token (unfold has_char in refl),
        state_dir-plain (is_windows t.os),
      )
      (unfold has_char in refl)

tail_sections-plain : (t : Template) → all_plain (tail_sections t) ≡ true
unfolding tail_sections has_char
tail_sections-plain t = elim (Bool-cases (t.include_windows_block || is_windows t.os)) [
  | inl e ↦ rw e refl
  | inr e ↦ rw e refl
]

abbrev has_parts : List String → Bool
has_parts [] = false
has_parts (p ∷ ps) = true

-- The lines of a file whose parts are lines but for one.
file-lines :
    (head tail : List String) (part : String) (shown : List String)
    → has_parts head ≡ true
    → all_plain head ≡ true
    → split b'\n' part ≡ shown
    → all_plain tail ≡ true
    → split b'\n' (join "\n" (head ++ part ∷ tail)) ≡ head ++ (shown ++ tail)
file-lines [] tail part shown h head_plain part_lines tail_plain = cc h
file-lines (p ∷ ps) tail part shown h head_plain part_lines tail_plain =
    split-join p (ps ++ part ∷ tail)
    ∙ lines_of-++ (p ∷ ps) (part ∷ tail)
    ∙ rw (lines_of-plain (p ∷ ps) head_plain, part_lines, lines_of-plain tail tail_plain) refl

-- All lines of a rendered configuration, if the keys of the given log sources have no newline: those
-- of the template, each value quoted at the end of its own line, whatever the values hold.
pub render_agent_toml-lines :
    (t : Template) (text : String)
    → all_keys_plain (sources_of t) ≡ true
    → render_agent_toml t ≡ ok text
    → split b'\n' text ≡ head_sections t ++ (shown_sources (sources_of t) ++ "" ∷ tail_sections t)
unfolding render_agent_toml
render_agent_toml-lines t text h e =
    let part = strip_newlines (toml_array_of_tables (sources_of t)) in
    let rendered = join "\n" (head_sections t ++ (part ∷ "" ∷ tail_sections t)) in
    let rest =
      ok-injective
        (raise_if->>-eq-ok (ltb max_template_bytes (utf8_length rendered)) template_too_large
          (ok rendered) e).1 in
    ap (split b'\n') (sym rest)
    ∙ file-lines (head_sections t) ("" ∷ tail_sections t) part (shown_sources (sources_of t))
        (unfold head_sections in refl) (head_sections-plain t) (sources-lines (sources_of t) h)
        (rw (tail_sections-plain t) (unfold has_char in refl))
