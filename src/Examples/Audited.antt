-- ===== src/Examples/Audited.antt =====
-- The theorem of the audit log on an event with a token.
use ai_worker_bridge_mcp.Base.{
  ◌≡◌, refl, Bool, true, false, some, none, [], ◌∷◌, List, Option, map, All,
}
use ai_worker_bridge_mcp.Base.Text.{Text, codes}
use ai_worker_bridge_mcp.Json.{Json, str}
use ai_worker_bridge_mcp.Audit.{Entries, written, IsClean}
use ai_worker_bridge_mcp.Audit.Log.{
  Event, entries, before_failure, new_logger, emit_all, emit_all-IsClean,
}

abbrev fields : List (Text × Option Json)
fields =
    (codes "actor", some (str (codes "k")))
    ∷ (codes "Token", some (str (codes "t")))
    ∷ (codes "scope", none)
    ∷ []

abbrev safe : Entries
safe =
    (codes "timestamp", str (codes "now"))
    ∷ (codes "event_type", str (codes "e"))
    ∷ (codes "outcome", str (codes "ok"))
    ∷ (codes "actor", str (codes "k"))
    ∷ []

writes : written true true (codes "now") (codes "e") (codes "ok") fields ≡ some safe
unfolding written
writes = refl

abbrev event : Bool → Event
event writes = record {
  timestamp = codes "now";
  event_type = codes "e";
  outcome = codes "ok";
  fields = fields;
  writes = writes;
}

-- The third write fails.
abbrev events : List Event
events = event true ∷ event true ∷ event false ∷ event true ∷ []

abbrev logged : List Entries
logged = (emit_all events (new_logger true true (some (codes "/logs/audit.jsonl")))).lines

two_lines : logged ≡ safe ∷ safe ∷ []
unfolding emit_all new_logger
two_lines = refl

emit_all-IsClean_example : (logged ≡ map entries (before_failure events)) × All IsClean logged
emit_all-IsClean_example = emit_all-IsClean true true (some (codes "/logs/audit.jsonl")) events
