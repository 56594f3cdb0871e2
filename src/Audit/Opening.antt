-- ===== src/Audit/Opening.antt =====
-- audit.py: the opening of the file of the day.
use zaqorincore.Prelude.{
  String, ◌≡◌, refl, ◌∙◌, ap, inl, inr, true, false, Option, none, some, List, string_eq, ==_iff,
  ◌==◌, Bool-cases, if◌then◌else◌,
}
use zaqorincore.Dict.{put, get-put}
use zaqorincore.Audit.Log.{
  State, Moment, log_path, open_lines, or_no_lines, is_today, reopen, current_handle, handle_in,
  ensure_persist_open,
}

-- An open file is that of the date beside it.
abbrev pub Matches : String → Option String → Option String → Type 0
Matches dir (some h) (some d) = h ≡ log_path dir d
Matches dir (some h) none = Unit
Matches dir none date = Unit

Matches-today :
    (dir today path : String) (h d : Option String)
    → Matches dir h d
    → h ≡ some path
    → is_today d today ≡ true
    → path ≡ log_path dir today
Matches-today dir today path (some h) (some d) m e f = cc (e, m, (==_iff d today).0 f)
Matches-today dir today path (some h) none m e f = cc
Matches-today dir today path none d m e f = cc

pub Matches-none : (dir : String) (h : Option String) → Matches dir h none
Matches-none dir (some h) = tt
Matches-none dir none = tt

module _ {J : Type 0} (dir : String) where
  pub record IsReady (s : State J) : Type 0 where
    pub configured : s.persist_dir ≡ some dir
    pub quiet : s.persist_warned ≡ false
    pub matches : Matches dir s.persist_handle s.persist_date

  -- The file of the day is open, and the files are as they were.
  pub record IsOpen (today : String) (s : State J) (opened : Option String × State J) : Type 0 where
    pub at_today : opened.0 ≡ some (log_path dir today)
    pub ready : IsReady opened.1
    pub lines_kept : (q : String) → open_lines q opened.1 ≡ open_lines q s

  pub lines-put :
      (path q : String) (lines : List String) (s : State J)
      → open_lines q (record s { disk = put path lines s.disk })
        ≡ (if path == q then lines else open_lines q s)
  lines-put path q lines s =
      ap or_no_lines (get-put path q lines s.disk)
      ∙ elim (Bool-cases (path == q)) [ inl e ↦ rw e refl | inr e ↦ rw e refl ]

  lines-same :
      (path q : String) (s : State J)
      → (if path == q then open_lines path s else open_lines q s) ≡ open_lines q s
  lines-same path q s = elim (Bool-cases (path == q)) [
    | inl e ↦ rw e (ap (λ x. open_lines x s) ((==_iff path q).0 e))
    | inr e ↦ rw e refl
  ]

  reopen-IsOpen :
      (m : Moment) (s : State J) → m.opens ≡ true → IsReady s → IsOpen m.today s (reopen m dir s)
  unfolding reopen
  reopen-IsOpen m s opens ready =
      let path = log_path dir m.today in
      rw opens (record {
        at_today = refl;
        ready = record { configured = ready.configured; quiet = ready.quiet; matches = refl };
        lines_kept = λ q. lines-put path q (open_lines path s) s ∙ lines-same path q s;
      })

  current_handle-IsOpen :
      (m : Moment) (s : State J) (h : Option String)
      → m.opens ≡ true
      → IsReady s
      → s.persist_handle ≡ h
      → IsOpen m.today s (current_handle m dir s h)
  current_handle-IsOpen m s none opens ready held = reopen-IsOpen m s opens ready
  current_handle-IsOpen m s (some h) opens ready held =
      elim (Bool-cases (is_today s.persist_date m.today)) [
        | inl e ↦ rw e (record {
          at_today =
              ap some
                (Matches-today dir m.today h s.persist_handle s.persist_date ready.matches held e);
          ready = ready;
          lines_kept = λ q. refl;
        })
        | inr e ↦ rw e (reopen-IsOpen m s opens ready)
      ]

  ensure_persist_open-IsReady :
      (m : Moment) (s : State J)
      → IsReady s
      → ensure_persist_open m s ≡ current_handle m dir s s.persist_handle
  unfolding ensure_persist_open
  ensure_persist_open-IsReady m s ready =
      ap (handle_in m s) ready.configured
      ∙ ap (λ warned. if warned then (none, s) else current_handle m dir s s.persist_handle)
          ready.quiet

  pub ensure_persist_open-IsOpen :
      (m : Moment) (s : State J)
      → m.opens ≡ true
      → IsReady s
      → IsOpen m.today s (ensure_persist_open m s)
  ensure_persist_open-IsOpen m s opens ready =
      rw (ensure_persist_open-IsReady m s ready)
        (current_handle-IsOpen m s s.persist_handle opens ready refl)
