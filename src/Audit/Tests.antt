-- ===== src/Audit/Tests.antt =====
-- The audit trail over two days.
use zaqorincore.Prelude.{
  ℕ, String, ◌≡◌, refl, true, false, Option, none, some, List, [], ◌∷◌, ◌++◌, map, take, decimal,
  append, err, string_eq,
}
use zaqorincore.Dict.{get}
use zaqorincore.Audit.Log.{
  audit_max, Field, text, given, State, Writer, Moment, Entry, not_serializable, written, Call,
  recorded, cleared, log_path, item_of, line_of, exported, snapshot, run, record_entry, open_lines,
}
use zaqorincore.Audit.Ring.{history, snapshot-run}
use zaqorincore.Audit.Lines.{lines_for, run-lines}

abbrev text_of : Option (Field Unit) → Option String
text_of (some (text s)) = some s
text_of _ = none

-- Lines that hold the action alone.
abbrev writer : Writer Unit
unfolding decimal append get
writer = record {
  isoformat = λ t. append "t" (decimal t);
  dumps = λ item. text_of (get "action" item);
}

abbrev start : State Unit
start = record {
  log = [];
  persist_dir = some "/a";
  persist_file = none;
  persist_handle = none;
  persist_date = none;
  persist_warned = false;
  disk = [];
}

abbrev at : ℕ → String → Moment
at now today = record { now = now; today = today; opens = true; write = written }

abbrev entry : String → Entry Unit
entry action = record {
  actor = "ops";
  action = action;
  target = "-";
  status = some 200;
  extra = [];
}

abbrev calls : List (Call Unit)
calls =
    recorded (at 1 "d1") (entry "a")
    ∷ cleared
    ∷ recorded (at 2 "d1") (entry "b")
    ∷ recorded (at 3 "d2") (entry "c")
    ∷ []

day_one : open_lines "/a/audit-d1.jsonl" (run writer calls start) ≡ "a" ∷ "b" ∷ []
unfolding run writer log_path
day_one = refl

-- An `extra` that overwrites the action leaves nothing that this writer can write.
raised :
    (record_entry writer
      (at 1 "d1")
      (record {
        actor = "ops";
        action = "a";
        target = "-";
        status = none;
        extra = ("action", given tt) ∷ [];
      })
      start).1
    ≡ err not_serializable
unfolding record_entry writer
raised = refl

snapshot-run_example :
    snapshot writer 1 (run writer calls start)
    ≡ map (exported writer) (take 1 (take audit_max (history writer calls [])))
snapshot-run_example = snapshot-run writer calls start 1 refl

run-lines_example :
    open_lines "/a/audit-d2.jsonl" (run writer calls start)
    ≡ [] ++ lines_for "/a" writer "/a/audit-d2.jsonl" calls
unfolding writer item_of line_of
run-lines_example =
    run-lines "/a" writer calls start "/a/audit-d2.jsonl"
      (refl, refl, ("a", refl), (refl, refl, ("b", refl), (refl, refl, ("c", refl), tt)))
      (record { configured = refl; quiet = refl; matches = tt })
