-- ===== src/Audit/Log.antt =====
-- audit.py: the life of an `AuditLogger`, from its start over all that it emits. The file is the list of
-- its lines, each as the entries that make up its JSON; whether the file can be opened, and whether a
-- write succeeds, is given.
use ai_worker_bridge_mcp.Base.{
  ◌≡◌, ◌∙◌, refl, sym, subst, Bool, true, false, ◌&&◌, Option, none, some, List, [], ◌∷◌, ◌++◌, map,
  All, is_nil, not, is_some, if◌then◌else◌, Bool-cases, inl, inr,
}
use ai_worker_bridge_mcp.Base.Text.{Text, codes}
use ai_worker_bridge_mcp.Json.{Json, str}
use mathlib.Core.List.{append_assoc, append-nil}
use ai_worker_bridge_mcp.Audit.{Entries, add_fields, written, IsClean, written-IsClean}

pub record AuditLogger : Type 0 where
  pub enabled : Bool
  pub path : Option Text
  pub lines : List Entries

pub record Event : Type 0 where
  pub timestamp : Text
  pub event_type : Text
  pub outcome : Text
  pub fields : List (Text × Option Json)
  -- Whether appending to the file succeeds.
  pub writes : Bool

-- `Path(path) if path and enabled else None`, and None again if the file cannot be made.
unfoldable pub usable_path : Bool → Bool → Option Text → Option Text
usable_path enabled opens none = none
usable_path enabled opens (some path) =
    if not (is_nil path) && (enabled && opens) then some path else none

unfoldable pub new_logger : Bool → Bool → Option Text → AuditLogger
unfolding usable_path
new_logger enabled opens path = record {
  enabled = enabled;
  path = usable_path enabled opens path;
  lines = [];
}

-- The append of a line, or `self.path = None` where it raises.
unfoldable pub append_line : Bool → Option Entries → AuditLogger → AuditLogger
append_line writes none logger = logger
append_line true (some safe) logger = record logger { lines = logger.lines ++ safe ∷ [] }
append_line false (some safe) logger = record logger { path = none }

unfoldable pub emit_event : Event → AuditLogger → AuditLogger
unfolding written append_line
emit_event event logger =
    append_line event.writes
      (written logger.enabled (is_some logger.path) event.timestamp event.event_type event.outcome
        event.fields)
      logger

-- `emit` for each of the events.
unfoldable pub emit_all : List Event → AuditLogger → AuditLogger
unfolding emit_event
emit_all [] logger = logger
emit_all (event ∷ events) logger = emit_all events (emit_event event logger)

-- The events before the first one whose write fails.
abbrev pub before_failure : List Event → List Event
before_failure [] = []
before_failure (event ∷ events) =
    let rest = before_failure events in if event.writes then event ∷ rest else []

-- The entries of one event.
abbrev pub entries : Event → Entries
entries event = add_fields event.fields (
    (codes "timestamp", str event.timestamp)
    ∷ (codes "event_type", str event.event_type)
    ∷ (codes "outcome", str event.outcome)
    ∷ [])

entries-IsClean : (event : Event) → IsClean (entries event)
unfolding written
entries-IsClean event =
    (written-IsClean true true event.timestamp event.event_type event.outcome event.fields refl).0

map-IsClean : (events : List Event) → All IsClean (map entries events)
map-IsClean [] = tt
map-IsClean (event ∷ events) = (entries-IsClean event, map-IsClean events)

opened-IsClean :
    (opened : Bool) (events : List Event)
    → All IsClean (if opened then map entries (before_failure events) else [])
opened-IsClean true events = map-IsClean (before_failure events)
opened-IsClean false events = tt

-- Without a path nothing is written.
emit_all-closed :
    (events : List Event) (enabled : Bool) (lines : List Entries)
    → (emit_all events (record { enabled = enabled; path = none; lines = lines })).lines ≡ lines
unfolding emit_all emit_event append_line written
emit_all-closed [] enabled lines = refl
emit_all-closed (event ∷ events) true lines = emit_all-closed events true lines
emit_all-closed (event ∷ events) false lines = emit_all-closed events false lines

emit_all-opened :
    (events : List Event) (path : Text) (lines : List Entries)
    → (emit_all events (record { enabled = true; path = some path; lines = lines })).lines
      ≡ lines ++ map entries (before_failure events)
unfolding emit_all emit_event append_line written
emit_all-opened [] path lines = sym (append-nil lines)
emit_all-opened (event ∷ events) path lines = elim (Bool-cases event.writes) [
  | inl e ↦ rw e (
      emit_all-opened events path (lines ++ entries event ∷ [])
      ∙ append_assoc lines (entries event ∷ []) (map entries (before_failure events)))
  | inr e ↦ rw e (emit_all-closed events true lines ∙ sym (append-nil lines))
]

-- A log that is enabled and has the path of a file that could be opened.
abbrev pub is_open : Bool → Bool → Option Text → Bool
is_open enabled opens none = false
is_open enabled opens (some path) = not (is_nil path) && (enabled && opens)

emit_all-new :
    (enabled opens : Bool) (path : Option Text) (events : List Event)
    → (emit_all events (new_logger enabled opens path)).lines
      ≡ (if is_open enabled opens path then map entries (before_failure events) else [])
unfolding new_logger usable_path
emit_all-new enabled opens none events = emit_all-closed events enabled []
emit_all-new true true (some (c ∷ path)) events = emit_all-opened events (c ∷ path) []
emit_all-new enabled opens (some []) events = emit_all-closed events enabled []
emit_all-new true false (some (c ∷ path)) events = emit_all-closed events true []
emit_all-new false opens (some (c ∷ path)) events = emit_all-closed events false []

-- The file of a new log has one line for each event emitted before the first write that fails, in order
-- and none after it, or no line at all where the log is not enabled, has no path, or could not open its
-- file; and no line has an entry with one of the hidden names, in whatever case of ASCII.
pub emit_all-IsClean :
    (enabled opens : Bool) (path : Option Text) (events : List Event)
    → ((emit_all events (new_logger enabled opens path)).lines
        ≡ (if is_open enabled opens path then map entries (before_failure events) else []))
      × All IsClean (emit_all events (new_logger enabled opens path)).lines
emit_all-IsClean enabled opens path events =
    let lines = emit_all-new enabled opens path events in
    (lines, subst (All IsClean) (sym lines) (opened-IsClean (is_open enabled opens path) events))
