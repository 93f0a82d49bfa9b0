-- ===== src/Store/Reads.antt =====
-- store.py: what the reads return after the writes.
use ai_worker_bridge_mcp.Base.{
  String, ◌≡◌, ◌≢◌, refl, ap, Bool, true, false, Option, none, some, [], ◌∷◌, ◌++◌, any,
  Option-cases, inl, inr, arith, eq_iff, if◌then◌else◌,
}
use ai_worker_bridge_mcp.Base.Exec.{ok, err}
use ai_worker_bridge_mcp.Exceptions.{integrity_error}
use ai_worker_bridge_mcp.TaskState.{TaskRecord}
use ai_worker_bridge_mcp.Store.{
  Table, key_eq, key_taken, put, upsert, insert, find, get, get_by_idempotency_key, usable_key,
  create_or_get, create_keyed, Created, created, holds_key,
}
use text.Mathlib.TextPositions.{eq_refl}
use text.Mathlib.Text.{◌==◌ as str_eq}

-- What an upsert of `t` leaves in its row: an old row keeps its `created_at`.
unfoldable pub merged : TaskRecord → Option TaskRecord → TaskRecord
merged t none = t
merged t (some old) = record t { created_at = old.created_at }

pub get-put :
    (j : String) (t : TaskRecord) (rows : Table)
    → get j (put t rows)
      ≡ (if str_eq t.task_id j then some (merged t (get t.task_id rows)) else get j rows)
unfolding get put merged
get-put j t [] = refl
get-put j t (r ∷ rows) =
    ground
      (arith, get-put j t rows, eq_iff r.task_id t.task_id, eq_iff t.task_id j, eq_iff r.task_id j)

-- After an upsert that succeeds, the task's row holds the task with the row's own `created_at`; every
-- other row is as it was.
pub get-upsert :
    (j : String) (t : TaskRecord) (rows : Table) {after : Table}
    → upsert t rows ≡ ok after
    → get j after
      ≡ (if str_eq t.task_id j then some (merged t (get t.task_id rows)) else get j rows)
unfolding upsert
get-upsert j t rows {after} e = ground (arith, get-put j t rows)

find-append :
    (p : TaskRecord → Bool) (rows more : Table)
    → find p (rows ++ more) ≡ elim (find p rows) [ none ↦ find p more | some r ↦ some r ]
unfolding find
find-append p [] more = refl
find-append p (r ∷ rows) more = ground (arith, find-append p rows more)

pub get-insert :
    (j : String) (t : TaskRecord) (rows : Table) {after : Table}
    → insert t rows ≡ ok after
    → get j after
      ≡ elim (get j rows) [ some r ↦ some r | none ↦ if str_eq t.task_id j then some t else none ]
unfolding insert get find
get-insert j t rows {after} e = ground (arith, find-append (λ r. str_eq r.task_id j) rows (t ∷ []))

usable_key-eq-some : (o : Option String) {k : String} → usable_key o ≡ some k → o ≡ some k
unfolding usable_key
usable_key-eq-some none h = cc
usable_key-eq-some (some k) h = ground arith

get_by_key-append :
    (t : TaskRecord) (k : String) (rows : Table)
    → t.idempotency_key ≡ some k
    → get_by_idempotency_key k rows ≡ none
    → get_by_idempotency_key k (rows ++ t ∷ []) ≡ some t
unfolding get_by_idempotency_key find key_eq
get_by_key-append t k [] h e = rw h (rw (eq_refl k))
get_by_key-append t k (r ∷ rows) h e = ground (arith, get_by_key-append t k rows h)

-- A keyed call finds the existing row.
pub create_or_get_of_existing :
    (u : TaskRecord) (k : String) (rows : Table) (old : TaskRecord)
    → usable_key u.idempotency_key ≡ some k
    → get_by_idempotency_key k rows ≡ some old
    → create_or_get u rows ≡ ok (rows, old, false)
unfolding create_or_get
create_or_get_of_existing u k rows old hk e = rw (hk, e)

-- A keyed call with no row for the key inserts the task.
pub create_or_get_of_new :
    (t : TaskRecord) (k : String) (rows : Table)
    → usable_key t.idempotency_key ≡ some k
    → get_by_idempotency_key k rows ≡ none
    → create_or_get t rows ≡ created t (insert t rows)
unfolding create_or_get
create_or_get_of_new t k rows hk e = rw (hk, e)

-- After a keyed call that succeeds, the key leads to the task that was returned.
create_or_get_stored :
    (t : TaskRecord) (k : String) (rows : Table) {out : Created}
    → usable_key t.idempotency_key ≡ some k
    → create_or_get t rows ≡ ok out
    → get_by_idempotency_key k out.0 ≡ some out.1
unfolding insert created
create_or_get_stored t k rows hk e = elim (Option-cases (get_by_idempotency_key k rows)) [
  | inl missing ↦ ground (
    arith,
    create_or_get_of_new t k rows hk missing,
    get_by_key-append t k rows (usable_key-eq-some _ hk) missing,
  )
  | inr (old, found) ↦ ground (arith, create_or_get_of_existing t k rows old hk found)
]

-- Submitting with a key a second time, with any task, returns the first task and writes nothing.
pub create_or_get_replay :
    (t u : TaskRecord) (k : String) (rows : Table) {out : Created}
    → usable_key t.idempotency_key ≡ some k
    → usable_key u.idempotency_key ≡ some k
    → create_or_get t rows ≡ ok out
    → create_or_get u out.0 ≡ ok (out.0, out.1, false)
create_or_get_replay t u k rows {out} hk hu e =
    create_or_get_of_existing u k out.0 out.1 hu (create_or_get_stored t k rows hk e)

put-holds_key :
    (t u : TaskRecord) (k : String) (rows : Table)
    → t.idempotency_key ≡ some k
    → u.idempotency_key ≡ some k
    → t.task_id ≢ u.task_id
    → any (λ r. holds_key u r) (put t rows) ≡ true
unfolding put holds_key key_eq
put-holds_key t u k [] ht hu ne = ground (arith, eq_iff t.task_id u.task_id, eq_iff k k)
put-holds_key t u k (r ∷ rows) ht hu ne =
    ground (arith, put-holds_key t u k rows ht hu ne, eq_iff t.task_id u.task_id, eq_iff k k)

create_or_get_of_empty_key :
    (t : TaskRecord) (rows : Table)
    → t.idempotency_key ≡ some ""
    → create_or_get t rows ≡ created t (upsert t rows)
unfolding create_or_get usable_key
create_or_get_of_empty_key t rows h = ap (λ o. create_keyed (usable_key o) t rows) h

-- With the empty string for a key, which counts as no key, a second task with another id is refused by
-- the unique index, after the first was stored, instead of being created or matched.
pub create_or_get_empty_key :
    (t u : TaskRecord) (rows : Table) {out : Created}
    → t.idempotency_key ≡ some ""
    → u.idempotency_key ≡ some ""
    → t.task_id ≢ u.task_id
    → create_or_get t rows ≡ ok out
    → create_or_get u out.0 ≡ err integrity_error
unfolding upsert key_taken created
create_or_get_empty_key t u rows {out} ht hu ne e = ground (
  arith,
  create_or_get_of_empty_key t rows ht,
  create_or_get_of_empty_key u out.0 hu,
  put-holds_key t u "" rows ht hu ne,
)
