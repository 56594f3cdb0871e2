-- ===== src/Audit/Log.antt =====
-- audit.py: `record`, `snapshot` and `reset`. What `json.dumps` and `isoformat` give are parameters,
-- as is what the file system does at each call; a file is the list of its lines.
use zaqorincore.Prelude.{
  ℕ, zero, suc, ◌-◌, String, Bool, true, false, Option, none, some, List, [], ◌∷◌, ◌++◌, map,
  length, append, ltb, Result, ok, err, ◌>>=◌, string_eq, ◌==◌, if◌then◌else◌,
}
use zaqorincore.Dict.{Dict, get, put}
use mathlib.Core.List.{reverse}

abbrev pub audit_max : ℕ
audit_max = 1024

-- The values of an entry: a `datetime`, a text, a status, or a value of `extra`.
pub data Field (J : Type 0) : Type 0 where
  moment : ℕ → Field J
  text : String → Field J
  code : ℕ → Field J
  given : J → Field J

abbrev pub Item : Type 0 → Type 0
Item J = Dict String (Field J)

pub record Writer (J : Type 0) : Type 0 where
  pub isoformat : ℕ → String
  -- `json.dumps`, where it raises no TypeError
  pub dumps : Item J → Option String

-- The module's globals, with the files by their paths; `handle` is the path of the open file.
pub record State (J : Type 0) : Type 0 where
  pub log : List (Item J)
  pub persist_dir : Option String
  pub persist_file : Option String
  pub persist_handle : Option String
  pub persist_date : Option String
  pub persist_warned : Bool
  pub disk : Dict String (List String)

-- What the writing of a line does: it may fail and leave the file with other lines.
pub data Write : Type 0 where
  written : Write
  refused : List String → Write

-- The times read by a call, and the answers of the file system.
pub record Moment : Type 0 where
  pub now : ℕ
  pub today : String
  pub opens : Bool
  pub write : Write

pub record Entry (J : Type 0) : Type 0 where
  pub actor : String
  pub action : String
  pub target : String
  pub status : Option ℕ
  pub extra : Item J

-- The AttributeError of `isoformat` and the TypeError of `dumps`.
pub data AuditError : Type 0 where
  no_isoformat : AuditError
  not_serializable : AuditError

abbrev pub or_no_lines : Option (List String) → List String
or_no_lines none = []
or_no_lines (some lines) = lines

unfoldable pub log_path : String → String → String
unfolding append
log_path dir today = append dir (append "/audit-" (append today ".jsonl"))

abbrev pub is_today : Option String → String → Bool
is_today none today = false
is_today (some d) today = d == today

-- What happens to the module.
pub data Call (J : Type 0) : Type 0 where
  recorded : Moment → Entry J → Call J
  cleared : Call J

module _ {J : Type 0} where
  -- item.update(extra)
  unfoldable pub update : Item J → Item J → Item J
  unfolding put
  update item [] = item
  update item ((k, v) ∷ extra) = update (put k v item) extra

  abbrev pub with_status : Option ℕ → Item J → Item J
  with_status none item = item
  with_status (some s) item = put "status" (code s) item

  unfoldable pub item_of : ℕ → Entry J → Item J
  unfolding update put
  item_of now e =
      update
        (with_status e.status (
          ("ts", moment now)
          ∷ ("actor", text e.actor)
          ∷ ("action", text e.action)
          ∷ ("target", text e.target)
          ∷ []))
        e.extra

  abbrev pub drop_first : List (Item J) → List (Item J)
  drop_first [] = []
  drop_first (x ∷ xs) = xs

  -- `_log.append(item)` on a deque of bounded length
  unfoldable pub push : List (Item J) → Item J → List (Item J)
  push log item =
      if ltb (length log) audit_max then log ++ item ∷ [] else drop_first (log ++ item ∷ [])

  abbrev pub open_lines : String → State J → List String
  open_lines path s = or_no_lines (get path s.disk)

  -- The part of `_ensure_persist_open` under the `try`.
  unfoldable pub reopen : Moment → String → State J → Option String × State J
  reopen m dir s =
      let path = log_path dir m.today in
      if m.opens
      then (
        some path,
        record s {
          persist_handle = some path;
          persist_file = some path;
          persist_date = some m.today;
          disk = put path (or_no_lines (get path s.disk)) s.disk;
        },
      )
      else (none, record s { persist_warned = true; persist_handle = none })

  abbrev pub current_handle : Moment → String → State J → Option String → Option String × State J
  current_handle m dir s none = reopen m dir s
  current_handle m dir s (some h) =
      if is_today s.persist_date m.today then (some h, s) else reopen m dir s

  abbrev pub handle_in : Moment → State J → Option String → Option String × State J
  handle_in m s none = (none, s)
  handle_in m s (some dir) =
      if s.persist_warned then (none, s) else current_handle m dir s s.persist_handle

  unfoldable pub ensure_persist_open : Moment → State J → Option String × State J
  unfolding reopen
  ensure_persist_open m s = handle_in m s s.persist_dir

  -- `handle.write(...)` up to the flush, at the end of the file
  unfoldable pub add_line : Write → String → String → State J → State J
  add_line written path line s = record s {
    disk = put path (or_no_lines (get path s.disk) ++ line ∷ []) s.disk;
  }
  add_line (refused left) path line s = record s { disk = put path left s.disk }

  abbrev pub drop : ℕ → List (Item J) → List (Item J)
  drop zero xs = xs
  drop (suc n) [] = []
  drop (suc n) (x ∷ xs) = drop n xs

  -- `list(_log)[-limit:][::-1]`
  unfoldable pub newest : ℕ → List (Item J) → List (Item J)
  newest limit log = reverse (drop (length log - limit) log)

  module _ (w : Writer J) where
    abbrev pub iso_of : Option (Field J) → Result AuditError String
    iso_of (some (moment t)) = ok (w.isoformat t)
    iso_of _ = err no_isoformat

    abbrev pub serialized : Option String → Result AuditError String
    serialized none = err not_serializable
    serialized (some line) = ok line

    -- json.dumps({**item, "ts": item["ts"].isoformat()})
    unfoldable pub line_of : Item J → Result AuditError String
    unfolding get put
    line_of item = do iso ← iso_of (get "ts" item); serialized (w.dumps (put "ts" (text iso) item))

    abbrev pub write_line :
        Moment
        → Option String
        → State J
        → Item J
        → Result AuditError String
        → State J × Result AuditError (Item J)
    write_line m none s item line = (s, ok item)
    write_line m (some path) s item (err e) = (s, err e)
    write_line m (some path) s item (ok line) = (add_line m.write path line s, ok item)

    abbrev pub persist :
        Moment → Item J → Option String × State J → State J × Result AuditError (Item J)
    persist m item (handle, s) = write_line m handle s item (line_of item)

    -- `record`
    unfoldable pub record_entry : Moment → Entry J → State J → State J × Result AuditError (Item J)
    unfolding item_of push ensure_persist_open line_of add_line
    record_entry m e s =
        let item = item_of m.now e in
        persist m item (ensure_persist_open m (record s { log = push s.log item }))

    abbrev pub iso_field : Option (Field J) → Item J → Item J
    iso_field (some (moment t)) item = put "ts" (text (w.isoformat t)) item
    iso_field _ item = item

    -- An item with its time as a text, where `ts` is still a `datetime`.
    unfoldable pub exported : Item J → Item J
    unfolding get put
    exported item = iso_field (get "ts" item) item

    -- `snapshot`
    unfoldable pub snapshot : ℕ → State J → List (Item J)
    unfolding newest exported
    snapshot limit s = if ltb limit 1 then [] else map exported (newest limit s.log)

  -- `reset`, which closes no handle
  unfoldable pub reset : State J → State J
  reset s = record s { log = []; persist_file = none; persist_date = none }

  unfoldable pub call : Writer J → Call J → State J → State J
  unfolding record_entry reset
  call w (recorded m e) s = (record_entry w m e s).0
  call w cleared s = reset s

  unfoldable pub run : Writer J → List (Call J) → State J → State J
  unfolding call
  run w [] s = s
  run w (c ∷ cs) s = run w cs (call w c s)
