-- ===== src/Scheduler/Choice.antt =====
-- The choices among tasks in workbench/policy.py and workbench/service.py: the smallest or largest
-- item by a key, the first one where several are.
pub mod Laws
pub mod Oldest
use android_workbench.Prelude.{
  ℕ, ◌+◌, String, Bool, true, false, ◌&&◌, ◌||◌, List, [], ◌∷◌, ltb, eqb, if◌then◌else◌,
}
use Prim.Native.String.{compare as compare_text}
use text.Mathlib.Text.{is_lt}
use android_workbench.Scheduler.Model.{Job}

-- `min(x :: xs)` and, with the order reversed, `max(x :: xs)`: the first item that no later one
-- precedes.
unfoldable pub best : (Job → Job → Bool) → Job → List Job → Job
best before x [] = x
best before x (y ∷ ys) = best before (if before y x then y else x) ys

abbrev pub text_before : String → String → Bool
text_before a b = is_lt (compare_text a b)

-- `key=lambda j: (j["created"], j["id"])`
abbrev pub older : Job → Job → Bool
older a b = ltb a.created b.created || (eqb a.created b.created && text_before a.id b.id)

-- `key=lambda j: (-j["priority"], j["created"], j["id"])`
abbrev pub more_urgent : Job → Job → Bool
more_urgent a b = ltb b.priority a.priority || (eqb a.priority b.priority && older a b)

-- `key=lambda j: (j["priority"], -j["created"])`, for `max`
abbrev pub higher : Job → Job → Bool
higher a b = ltb b.priority a.priority || (eqb a.priority b.priority && ltb a.created b.created)

-- `max(j["priority"] for j in …)`
unfoldable pub top_priority : Job → List Job → ℕ
top_priority x xs = (best (λ a b. ltb b.priority a.priority) x xs).priority

-- `sort(key=…)`: a stable sort by insertion.
unfoldable pub insert_by : (Job → Job → Bool) → Job → List Job → List Job
insert_by before x [] = x ∷ []
insert_by before x (y ∷ ys) = if before y x then y ∷ insert_by before x ys else x ∷ y ∷ ys

unfoldable pub sort_by : (Job → Job → Bool) → List Job → List Job
sort_by before [] = []
sort_by before (x ∷ xs) = insert_by before x (sort_by before xs)
