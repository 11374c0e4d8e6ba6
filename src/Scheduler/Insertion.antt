-- ===== src/Scheduler/Insertion.antt =====
-- workbench/service.py: `choose_insertion` (1945-2002), which puts a waiting task into a paused scene.
-- The lock is given up between the search for candidates and the insertion of the advised one, so
-- these are two actions; `elapsed` is what the second one reads off the monotonic clock.
pub mod Exclusion
use android_workbench.Prelude.{
  ℕ, ◌-◌, String, Option, none, some, Bool, true, false, not, ◌&&◌, ◌||◌, List, [], ◌∷◌, contains,
  opt_eq, leb, ltb, min, max, ◌==◌, if◌then◌else◌,
}
use android_workbench.Scheduler.Model.{
  Checkpoint, Observation, Spec, Job, Config, Env, State, is_queued, is_paused,
}
use android_workbench.Scheduler.Store.{Action, pure, ◌>>=◌, ◌>>◌, gets, job_of, update, event}
use android_workbench.Scheduler.Available.{is_legal, available}
use android_workbench.Scheduler.Grant.{grant}

-- An empty wish is no wish.
abbrev wish_met : Option String → Option String → Bool
wish_met none seen = true
wish_met (some w) seen = w == "" || opt_eq (some w) seen

-- The operation is one that the checkpoint allows; in a test service, any insertable one.
abbrev pub allowed_at : Config → Checkpoint → Job → Bool
allowed_at config cp j =
    contains cp.allow j.spec.operation || (config.test_mode && j.spec.insertable)

-- The time that a checkpoint leaves for an insertion.
abbrev pub insertion_budget : Checkpoint → ℕ → ℕ
insertion_budget cp remaining = min cp.budget remaining

-- Whether the task can be inserted in the scene at all (1950-1973).
unfoldable pub insertable_at : Config → Job → Checkpoint → Observation → ℕ → Job → Bool
insertable_at config scene cp seen budget j =
    is_queued j.state
    && j.spec.insertable
    && allowed_at config cp j
    && opt_eq j.spec.device scene.spec.device
    && wish_met j.spec.app seen.app
    && wish_met j.spec.activity seen.activity
    && wish_met j.spec.expected_boot seen.boot_id
    && not (seen.hooks && not j.spec.accept_hooks)
    && leb j.spec.estimate budget
    && not j.spec.baseline

unfoldable pub is_candidate_at :
    Env → Config → Job → Checkpoint → Observation → ℕ → Job → Action Bool
is_candidate_at env config scene cp seen budget j =
    if insertable_at config scene cp seen budget j
    then (available env config (some scene) true j >>= λ verdict. pure (is_legal verdict))
    else pure false

unfoldable pub candidates_from :
    Env → Config → Job → Checkpoint → Observation → ℕ → List Job → Action (List Job)
candidates_from env config scene cp seen budget [] = pure []
candidates_from env config scene cp seen budget (j ∷ js) = do
  fits ← is_candidate_at env config scene cp seen budget j
  rest ← candidates_from env config scene cp seen budget js
  pure (if fits then j ∷ rest else rest)

-- The tasks from which the policy chooses (1948-1975).
unfoldable pub insertion_candidates :
    Env → Config → Job → Checkpoint → Observation → ℕ → Action (List Job)
insertion_candidates env config scene cp seen remaining =
    gets (λ s. s.jobs) >>= candidates_from env config scene cp seen (insertion_budget cp remaining)

-- The inserted task must be done within the rest of the budget, or a tenth of a second.
abbrev pub shortened : ℕ → ℕ → Job → Job
shortened budget elapsed j = record j {
  spec = record j.spec { timeout = min j.spec.timeout (max 1 (budget - elapsed)) };
}

-- The description is written back as it was read under the same lock.
unfoldable pub insert_now : Env → ℕ → ℕ → Job → Job → Action (Option String)
insert_now env budget elapsed scene child =
    update env child.id (shortened budget elapsed)
    >> event env child.id "inserted" (("parent", scene.id) ∷ [])
    >> grant env (some scene) (shortened budget elapsed child)
    >> pure (some child.id)

abbrev pub still_open : Job → ℕ → ℕ → Bool
still_open scene budget elapsed = not scene.cancel && is_paused scene.state && ltb elapsed budget

-- The second look at the scene and at the advised task (1982-2001).
unfoldable pub insert_chosen : Env → Config → String → String → ℕ → ℕ → Action (Option String)
insert_chosen env config scene_id chosen budget elapsed = do
  latest ← job_of scene_id
  child ← job_of chosen
  if not (still_open latest budget elapsed)
      then pure none
      else (available env config (some latest) true child >>= λ verdict.
          if is_legal verdict then insert_now env budget elapsed latest child else pure none)
