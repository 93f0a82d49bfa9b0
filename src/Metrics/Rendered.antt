-- ===== src/Metrics/Rendered.antt =====
-- metrics.py: what `render` shows of a counter.
use ai_worker_bridge_mcp.Base.{
  ℕ, ◌+◌, String, ◌≡◌, refl, ap, Bool, List, [], ◌∷◌, ◌++◌, map, Any, inl, inr, Bool-cases, arith,
  eq_iff, ◌&&◌,
}
use ai_worker_bridge_mcp.Base.Text.{Text}
use ai_worker_bridge_mcp.Metrics.{Counter, Metrics, reading, bump, inc_task_created}
use ai_worker_bridge_mcp.Metrics.Render.{
  WorkerMetrics, Printer, item_le, insert_item, sorted, pair_line, pair_lines, render_lines,
  later_lines, heading,
}
use text.Mathlib.Text.{◌==◌ as str_eq}

-- The list has the element.
abbrev pub Has : {A : Type 0} → A → List A → Type 0
Has x xs = Any (λ y. y ≡ x) xs

Has-map : {A B : Type 0} (f : A → B) (x : A) (xs : List A) → Has x xs → Has (f x) (map f xs)
Has-map f x [] h = h
Has-map f x (y ∷ ys) (inl h) = inl (ap f h)
Has-map f x (y ∷ ys) (inr h) = inr (Has-map f x ys h)

Has-append_left : {A : Type 0} (x : A) (xs ys : List A) → Has x xs → Has x (xs ++ ys)
Has-append_left x [] ys h = elim h [ ]
Has-append_left x (z ∷ zs) ys (inl h) = inl h
Has-append_left x (z ∷ zs) ys (inr h) = inr (Has-append_left x zs ys h)

insert_item_self :
    {A : Type 0} (le : A → A → Bool) (x : A) (xs : List A) → Has x (insert_item le x xs)
unfolding insert_item
insert_item_self le x [] = inl refl
insert_item_self le x (y ∷ ys) = elim (Bool-cases (le x y)) [
  | inl e ↦ rw e (inl refl)
  | inr e ↦ rw e (inr (insert_item_self le x ys))
]

insert_item-Has :
    {A : Type 0} (le : A → A → Bool) (x y : A) (xs : List A)
    → Has x xs
    → Has x (insert_item le y xs)
unfolding insert_item
insert_item-Has le x y [] h = elim h [ ]
insert_item-Has le x y (z ∷ zs) h = elim (Bool-cases (le y z)) [
  | inl e ↦ rw e (inr h)
  | inr e ↦ rw e (elim h [ inl g ↦ inl g | inr g ↦ inr (insert_item-Has le x y zs g) ])
]

sorted-Has :
    {A : Type 0} (le : A → A → Bool) (x : A) (xs : List A) → Has x xs → Has x (sorted le xs)
unfolding sorted
sorted-Has le x [] h = elim h [ ]
sorted-Has le x (y ∷ ys) (inl h) = rw h (insert_item_self le x (sorted le ys))
sorted-Has le x (y ∷ ys) (inr h) = insert_item-Has le x y (sorted le ys) (sorted-Has le x ys h)

bump-Has :
    (key text : String) (counter : Counter)
    → Has (key, text, reading key text counter + 1) (bump key text counter)
unfolding bump reading
bump-Has key text [] = inl refl
bump-Has key text ((k, l, n) ∷ rest) = elim (Bool-cases (str_eq k key && str_eq l text)) [
  | inl e ↦
      let k_is : k ≡ key = (eq_iff k key).0 (ground arith) in
      let l_is : l ≡ text = (eq_iff l text).0 (ground arith) in rw e (inl (rw k_is (rw l_is refl)))
  | inr e ↦ rw e (inr (bump-Has key text rest))
]

heading-Has :
    (metric help kind : String) (line : Text) (lines rest : List Text)
    → Has line lines
    → Has line (heading metric help kind lines ++ rest)
unfolding heading
heading-Has metric help kind line lines rest h = inr (inr (Has-append_left line lines rest h))

pair_lines-bump :
    (printer : Printer) (metric second : String) (key text : String) (counter : Counter)
    → Has
        (pair_line printer metric second (key, text, reading key text counter + 1))
        (pair_lines printer metric second (bump key text counter))
unfolding pair_lines
pair_lines-bump printer metric second key text counter =
    Has-map (pair_line printer metric second) _ _
      (sorted-Has item_le _ _ (bump-Has key text counter))

-- After a task is counted as created, the metrics show, on a line of their own, its worker and mode with
-- one more than was counted of them before.
pub inc_task_created-rendered :
    (printer : Printer) (m : Metrics) (w : WorkerMetrics) (active_tasks queued_tasks : ℕ)
    (worker_id mode : String)
    → Has
        (pair_line printer "ai_bridge_tasks_created_total" "mode"
          (worker_id, mode, reading worker_id mode m.tasks_created + 1))
        (render_lines printer (inc_task_created worker_id mode m) w active_tasks queued_tasks)
unfolding render_lines inc_task_created
inc_task_created-rendered printer m w active_tasks queued_tasks worker_id mode =
    heading-Has "ai_bridge_tasks_created_total" "Durable tasks created by worker and mode."
      "counter" _
      (pair_lines printer "ai_bridge_tasks_created_total" "mode"
        (bump worker_id mode m.tasks_created))
      (later_lines printer m.tasks_completed w active_tasks queued_tasks)
      (pair_lines-bump printer "ai_bridge_tasks_created_total" "mode" worker_id mode
        m.tasks_created)
