-- ===== src/Scheduler/Submit.antt =====
-- workbench/service.py: the two ends of `submit`: what it checks the first time that it takes the lock
-- (1192-1218), and the attempt to start the new task at once (1296-1309).
pub mod Sound
use android_workbench.Prelude.{
  ℕ, String, Option, none, some, Bool, true, not, ◌&&◌, ◌||◌, List, [], ◌∷◌, codes, length, leb,
  ltb, if◌then◌else◌,
}
use android_workbench.Scheduler.Model.{failed, Spec, Job, Config, Env}
use android_workbench.Scheduler.Store.{Action, pure, raise, ◌>>=◌, ◌>>◌, job_of}
use android_workbench.Scheduler.Finish.{finish}
use android_workbench.Scheduler.Available.{Verdict, available, is_legal, is_some, no_action}
use android_workbench.Scheduler.Grant.{grant}
use android_workbench.Scheduler.Admission.{Session, Asked, earlier, check_capacity, submit_prepared}

-- What the service sees of itself and of the disk.
pub record Service : Type 0 where
  pub stopping : Bool
  pub draining : Bool
  pub free_bytes : ℕ
  pub min_free_bytes : ℕ

abbrev check_disk : Service → Action (Option String)
check_disk service =
    if ltb service.free_bytes service.min_free_bytes
    then raise "Insufficient evidence disk capacity"
    else pure none

abbrev new_or_known : Service → Config → Session → Option String → Action (Option String)
new_or_known service config session (some known) = pure (some known)
new_or_known service config session none = check_capacity config session >> check_disk service

-- The task of an earlier request, if there is one; else the request may be prepared.
unfoldable pub submit_first : Service → Config → Session → Asked → Action (Option String)
submit_first service config session asked =
    if service.stopping || service.draining
    then raise "Service draining"
    else if not (leb 1 (length (codes asked.key)) && leb (length (codes asked.key)) 200)
    then raise "request_key is required (1..200 chars)"
    else earlier session asked >>= new_or_known service config session

abbrev pub grant_or_fail : Env → Job → Verdict → Action (Unit {0})
grant_or_fail env job verdict =
    if is_legal verdict
    then grant env none job
    else finish env job (no_action failed "resource_busy_no_action" none)

unfoldable pub try_now : Env → Config → String → Action (Unit {0})
try_now env config id = do
  job ← job_of id
  verdict ← available env config none true job
  grant_or_fail env job verdict

-- `submit` from the second time that it takes the lock, with the attempt to start a new task at once.
unfoldable pub submit_tried :
    Env → Config → String → Session → Asked → ℕ → Spec → Bool → Action String
submit_tried env config id session asked priority spec try_only = do
  known ← earlier session asked
  answer ← submit_prepared env config id session asked priority spec
  (if try_only && not (is_some known) then try_now env config answer else pure tt)
  pure answer
