-- ===== src/Scheduler/Select.antt =====
-- workbench/service.py: `select` (1723-1773), which revalidates the advised task under the lock and
-- grants it, or a better one. `chosen` is the id that `choose` returned for the candidates.
pub mod Pick
pub mod Exclusion
use android_workbench.Prelude.{
  ℕ, ◌+◌, String, Option, none, some, Bool, true, false, not, ◌&&◌, ◌||◌, List, [], ◌∷◌, first,
  keep, leb, ltb, eqb, concat, ◌==◌, if◌then◌else◌,
}
use android_workbench.Scheduler.Model.{Job, Config, Env, State, is_queued}
use android_workbench.Scheduler.Store.{Action, pure, raise, ◌>>=◌, ◌>>◌, gets, job_of, event}
use android_workbench.Scheduler.Available.{Verdict, is_legal, available}
use android_workbench.Scheduler.Grant.{grant}
use android_workbench.Scheduler.Choice.{best, older, more_urgent, higher, top_priority}

abbrev pub lane_of : Job → String
lane_of j = elim (j.spec.device) [
  | none ↦ "local"
  | some device ↦ if device == "" then "local" else concat "device:" device
]

-- Whether a task of the list goes into `fresh`; asking may finish it.
unfoldable pub is_fresh : Env → Config → String → Job → Action Bool
is_fresh env config lane j =
    if is_queued j.state && lane_of j == lane
    then (available env config none true j >>= λ verdict. pure (is_legal verdict))
    else pure false

unfoldable pub fresh_jobs : Env → Config → String → List Job → Action (List Job)
fresh_jobs env config lane [] = pure []
fresh_jobs env config lane (j ∷ js) = do
  legal ← is_fresh env config lane j
  rest ← fresh_jobs env config lane js
  pure (if legal then j ∷ rest else rest)

abbrev pub aged : Env → Config → Job → Bool
aged env config j = leb (j.created + config.fair_after) env.now

-- The first choice: the advised task while its snapshot is valid, else the most urgent fresh one.
abbrev pub revalidated : Job → Bool → List Job → Option Job
revalidated job valid [] = if valid then some job else none
revalidated job valid (x ∷ xs) = if valid then some job else some (best more_urgent x xs)

abbrev by_priority : Job → List Job → Job
by_priority job [] = job
by_priority job (x ∷ xs) = if ltb job.priority (top_priority x xs) then best higher x xs else job

abbrev by_age : String → Job → List Job → List Job → Job
by_age chosen job fresh [] = by_priority job fresh
by_age chosen job fresh (x ∷ xs) =
    let oldest = best older x xs in if oldest.id == chosen then by_priority job fresh else oldest

-- The age test looks at the advised id, and not at the first choice.
abbrev pick_from : Env → Config → String → List Job → Option Job → Option Job
pick_from env config chosen fresh none = none
pick_from env config chosen fresh (some job) =
    some (by_age chosen job fresh (keep (aged env config) fresh))

-- The task that is granted.
unfoldable pub pick : Env → Config → String → Job → Bool → List Job → Option Job
pick env config chosen job valid fresh =
    pick_from env config chosen fresh (revalidated job valid fresh)

unfoldable pub grant_picked : Env → Option Job → Action (Unit {0})
grant_picked env none = pure tt
grant_picked env (some job) = event env job.id "decision" [] >> grant env none job

abbrev pub snapshot : Option Job → Action Job
snapshot none = raise "StopIteration"
snapshot (some j) = pure j

unfoldable pub original_of : String → List Job → Action Job
original_of chosen candidates = snapshot (first (λ (j : Job). j.id == chosen) candidates)

unfoldable pub ask_and_grant : Env → Config → String → String → Job → Job → Action (Unit {0})
unfolding grant_picked
ask_and_grant env config lane chosen job original = do
  verdict ← available env config none true job
  all ← gets (λ s. s.jobs)
  fresh ← fresh_jobs env config lane all
  let valid = is_legal verdict && eqb job.revision original.revision
  grant_picked env (pick env config chosen job valid fresh)

unfoldable pub select : Env → Config → Bool → String → List Job → String → Action (Unit {0})
unfolding original_of
select env config stopping lane candidates chosen = if stopping then pure tt else do
  job ← job_of chosen
  original ← original_of chosen candidates
  ask_and_grant env config lane chosen job original
