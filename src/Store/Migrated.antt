-- ===== src/Store/Migrated.antt =====
-- store.py, `_init_db`: what a database has after it, whichever version made it.
use ai_worker_bridge_mcp.Base.{
  String, ◌≡◌, refl, ap, subst, true, ◌||◌, some, List, [], ◌∷◌, ◌++◌, All, eq_iff, ◌∙◌, Bool-cases,
  inl, inr, arith,
}
use ai_worker_bridge_mcp.Store.Schema.{
  Database, has_column, task_columns, created_columns, add_missing, migrated, init_db,
}

-- The columns of the first version of the table.
abbrev pub first_columns : List String
first_columns =
    "task_id" ∷ "worker_id" ∷ "prompt" ∷ "idempotency_key" ∷ "state" ∷ "result_json" ∷ "error"
    ∷ "created_at" ∷ "updated_at" ∷ "started_at" ∷ "completed_at" ∷ "timeout_seconds" ∷ []

abbrev pub Covers : List String → List String → Type 0
Covers names columns = All (λ name. has_column name columns ≡ true) names

has_column-append :
    (name : String) (columns more : List String)
    → has_column name (columns ++ more) ≡ has_column name columns || has_column name more
unfolding has_column
has_column-append name [] more = refl
has_column-append name (c ∷ columns) more = ground (arith, has_column-append name columns more)

add_missing_keeps :
    (seen : List String) (new name : String) (columns : List String)
    → has_column name columns ≡ true
    → has_column name (add_missing seen new columns) ≡ true
unfolding add_missing
add_missing_keeps seen new name columns h = elim (Bool-cases (has_column new seen)) [
  | inl e ↦ rw e h
  | inr e ↦ rw e (rw (has_column-append name columns (new ∷ [])) (rw h refl))
]

has_column_self : (name : String) → has_column name (name ∷ []) ≡ true
unfolding has_column
has_column_self name = rw ((eq_iff name name).1 refl) refl

add_missing_has :
    (seen : List String) (new : String) (columns : List String)
    → (has_column new seen ≡ true → has_column new columns ≡ true)
    → has_column new (add_missing seen new columns) ≡ true
unfolding add_missing
add_missing_has seen new columns h = elim (Bool-cases (has_column new seen)) [
  | inl e ↦ rw e (h e)
  | inr e ↦ rw e (
      let both : has_column new columns || has_column new (new ∷ []) ≡ true =
        ground (arith, has_column_self new) in
      has_column-append new columns (new ∷ []) ∙ both)
]

add_missing_same :
    (seen : List String) (name : String) (columns : List String)
    → has_column name seen ≡ true
    → add_missing seen name columns ≡ columns
unfolding add_missing
add_missing_same seen name columns h = rw h refl

module _ (seen : List String) where
  migrated_keeps :
      (name : String) → has_column name seen ≡ true → has_column name (migrated seen) ≡ true
  unfolding migrated
  migrated_keeps name h = add_missing_keeps seen "attempt_count" name _ (
      add_missing_keeps seen "dispatch_attempt_id" name _
        (add_missing_keeps seen "working_directory" name seen h))

  migrated_directory : has_column "working_directory" (migrated seen) ≡ true
  unfolding migrated
  migrated_directory = add_missing_keeps seen "attempt_count" "working_directory" _ (
      add_missing_keeps seen "dispatch_attempt_id" "working_directory" _
        (add_missing_has seen "working_directory" seen (λ h. h)))

  migrated_attempt : has_column "dispatch_attempt_id" (migrated seen) ≡ true
  unfolding migrated
  migrated_attempt = add_missing_keeps seen "attempt_count" "dispatch_attempt_id" _ (
      add_missing_has seen "dispatch_attempt_id" _
        (add_missing_keeps seen "working_directory" "dispatch_attempt_id" seen))

  migrated_count : has_column "attempt_count" (migrated seen) ≡ true
  unfolding migrated
  migrated_count = add_missing_has seen "attempt_count" _ (λ h.
      add_missing_keeps seen "dispatch_attempt_id" "attempt_count" _
        (add_missing_keeps seen "working_directory" "attempt_count" seen h))

migrated_same :
    (seen : List String)
    → has_column "working_directory" seen ≡ true
    → has_column "dispatch_attempt_id" seen ≡ true
    → has_column "attempt_count" seen ≡ true
    → migrated seen ≡ seen
unfolding migrated
migrated_same seen d a c =
    add_missing_same seen "attempt_count" _ c
    ∙ (add_missing_same seen "dispatch_attempt_id" _ a
        ∙ add_missing_same seen "working_directory" seen d)

migrated-Covers :
    (seen : List String) → Covers first_columns seen → Covers task_columns (migrated seen)
migrated-Covers seen (a, (b, (c, (d, (e, (f, (g, (h, (i, (j, (k, (l, done)))))))))))) =
    let keep = migrated_keeps seen in
    (
      keep "task_id" a,
      (
        keep "worker_id" b,
        (
          keep "prompt" c,
          (
            migrated_directory seen,
            (
              keep "idempotency_key" d,
              (
                migrated_attempt seen,
                (
                  migrated_count seen,
                  (
                    keep "state" e,
                    (
                      keep "result_json" f,
                      (
                        keep "error" g,
                        (
                          keep "created_at" h,
                          (
                            keep "updated_at" i,
                            (
                              keep "started_at" j,
                              (keep "completed_at" k, (keep "timeout_seconds" l, done)),
                            ),
                          ),
                        ),
                      ),
                    ),
                  ),
                ),
              ),
            ),
          ),
        ),
      ),
    )

-- Where the tasks table is not there yet, or has the columns of its first version, `_init_db` leaves a
-- table with every column that the store writes and reads, and a second `_init_db` leaves its columns as
-- they are.
pub init_db-Covers :
    (db : Database) {columns : List String}
    → Covers first_columns (created_columns db.tasks)
    → (init_db db).tasks ≡ some columns
    → Covers task_columns columns × ((init_db (init_db db)).tasks ≡ some columns)
unfolding init_db created_columns
init_db-Covers db {columns} covers e =
    let seen : List String = created_columns db.tasks in
    let same : migrated seen ≡ columns = ground arith in
    (
      subst (Covers task_columns) same (migrated-Covers seen covers),
      ap some (
            migrated_same (migrated seen) (migrated_directory seen) (migrated_attempt seen)
              (migrated_count seen))
          ∙ e,
    )
