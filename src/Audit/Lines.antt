-- ===== src/Audit/Lines.antt =====
-- audit.py: the lines of the files while the file system works.
use zaqorincore.Prelude.{
  String, ◌≡◌, refl, sym, ◌∙◌, ap, inl, inr, Bool, true, false, Option, some, List, [], ◌∷◌, ◌++◌,
  append-nil, append_assoc, Result, ok, err, string_eq, ==_iff, ◌==◌, Bool-cases, if◌then◌else◌,
}
use zaqorincore.Audit.Log.{
  State, Writer, Moment, Entry, Item, AuditError, written, Call, recorded, cleared, log_path,
  open_lines, item_of, push, ensure_persist_open, add_line, line_of, write_line, persist,
  record_entry, call, run, reset,
}
use zaqorincore.Audit.Opening.{Matches-none, IsReady, IsOpen, lines-put, ensure_persist_open-IsOpen}

module _ {J : Type 0} (dir : String) (w : Writer J) where
  abbrev pub or_no_line : Result AuditError String → List String
  or_no_line (err e) = []
  or_no_line (ok line) = line ∷ []

  -- The lines that the entries of a run make in one file.
  abbrev pub lines_for : String → List (Call J) → List String
  lines_for path [] = []
  lines_for path (cleared ∷ cs) = lines_for path cs
  lines_for path (recorded m e ∷ cs) =
      let rest = lines_for path cs in
      if log_path dir m.today == path
      then or_no_line (line_of w (item_of m.now e)) ++ rest
      else rest

  -- The file system works and every entry can be written as JSON.
  abbrev pub Works : List (Call J) → Type 0
  Works [] = Unit
  Works (cleared ∷ cs) = Works cs
  Works (recorded m e ∷ cs) =
      (m.opens ≡ true)
      × (m.write ≡ written)
      × ((line : String) × (line_of w (item_of m.now e) ≡ ok line))
      × Works cs

  record IsLined (path line : String) (s end : State J) : Type 0 where
    still : IsReady dir end
    lines :
        (q : String) → open_lines q end ≡ open_lines q s ++ (if path == q then line ∷ [] else [])

  lines-added :
      (path q line : String) (s : State J)
      → (if path == q then open_lines path s ++ line ∷ [] else open_lines q s)
        ≡ open_lines q s ++ (if path == q then line ∷ [] else [])
  lines-added path q line s = elim (Bool-cases (path == q)) [
    | inl e ↦ rw e (ap (λ x. open_lines x s ++ line ∷ []) ((==_iff path q).0 e))
    | inr e ↦ rw e (sym (append-nil (open_lines q s)))
  ]

  write_line-IsLined :
      (m : Moment) (h : Option String) (path line : String) (s : State J) (item : Item J)
      → m.write ≡ written
      → h ≡ some path
      → IsReady dir s
      → IsLined path line s (write_line w m h s item (ok line)).0
  unfolding add_line
  write_line-IsLined m h path line s item writes held ready =
      rw (held, writes)
        (record {
          still = record {
            configured = ready.configured;
            quiet = ready.quiet;
            matches = ready.matches;
          };
          lines = λ q.
              lines-put dir path q (open_lines path s ++ line ∷ []) s ∙ lines-added path q line s;
        })

  persist-IsLined :
      (m : Moment) (item : Item J) (line : String) (s : State J) (p : Option String × State J)
      → m.write ≡ written
      → line_of w item ≡ ok line
      → IsOpen dir m.today s p
      → IsLined (log_path dir m.today) line s (persist w m item p).0
  persist-IsLined m item line s (h, opened) writes serialized at =
      let step =
        write_line-IsLined m h (log_path dir m.today) line opened item writes at.at_today
          at.ready in
      rw serialized (record {
        still = step.still;
        lines = λ q.
            step.lines q
            ∙ ap (λ xs. xs ++ (if log_path dir m.today == q then line ∷ [] else []))
                (at.lines_kept q);
      })

  record_entry-IsLined :
      (m : Moment) (e : Entry J) (line : String) (s : State J)
      → m.opens ≡ true
      → m.write ≡ written
      → line_of w (item_of m.now e) ≡ ok line
      → IsReady dir s
      → IsLined (log_path dir m.today) line s (record_entry w m e s).0
  unfolding record_entry
  record_entry-IsLined m e line s opens writes serialized ready =
      let item = item_of m.now e in
      let logged = record s { log = push s.log item } in
      let done =
        persist-IsLined m item line logged (ensure_persist_open m logged) writes serialized (
          ensure_persist_open-IsOpen dir m logged opens (record {
            configured = ready.configured;
            quiet = ready.quiet;
            matches = ready.matches;
          })) in
      record { still = done.still; lines = done.lines }

  lines_for-recorded :
      (lines rest : List String) (line : String) (now : Bool)
      (serialized : Result AuditError String)
      → serialized ≡ ok line
      → (lines ++ (if now then line ∷ [] else [])) ++ rest
        ≡ lines ++ (if now then or_no_line serialized ++ rest else rest)
  lines_for-recorded lines rest line true serialized e = rw e (append_assoc lines (line ∷ []) rest)
  lines_for-recorded lines rest line false serialized e = append_assoc lines [] rest

  reset-IsReady : (s : State J) → IsReady dir s → IsReady dir (reset s)
  unfolding reset
  reset-IsReady s ready = record {
    configured = ready.configured;
    quiet = ready.quiet;
    matches = Matches-none dir s.persist_handle;
  }

  reset-lines : (path : String) (s : State J) → open_lines path (reset s) ≡ open_lines path s
  unfolding reset
  reset-lines path s = refl

  -- With a directory configured, no failure met before and a working file system, if every entry can
  -- be written as JSON, a file ends up with the lines it had and one line for each entry of its date,
  -- in their order, over changes of the date and resets.
  pub run-lines :
      (cs : List (Call J)) (s : State J) (path : String)
      → Works cs
      → IsReady dir s
      → open_lines path (run w cs s) ≡ open_lines path s ++ lines_for path cs
  unfolding run call
  run-lines [] s path works ready = sym (append-nil (open_lines path s))
  run-lines (cleared ∷ cs) s path works ready =
      run-lines cs (reset s) path works (reset-IsReady s ready)
      ∙ ap (λ xs. xs ++ lines_for path cs) (reset-lines path s)
  run-lines (recorded m e ∷ cs) s path (opens, writes, (line, serialized), works) ready =
      let step = record_entry-IsLined m e line s opens writes serialized ready in
      run-lines cs (record_entry w m e s).0 path works step.still
      ∙ ap (λ xs. xs ++ lines_for path cs) (step.lines path)
      ∙ lines_for-recorded (open_lines path s) (lines_for path cs) line
          (log_path dir m.today == path) (line_of w (item_of m.now e)) serialized
