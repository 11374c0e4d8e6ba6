-- ===== src/Examples/Leases.antt =====
-- A /proc of workbench/common.py, and leases of workbench/service.py over it.
use android_workbench.Prelude.{
  ℕ, String, some, none, true, false, Bool, List, [], ◌∷◌, ◌≡◌, refl, ◌↔◌, ◌⊎◌, eqb, if◌then◌else◌,
}
use android_workbench.Resource.{read}
use android_workbench.Scheduler.Model.{running, Process, Spec, Job, State}
use android_workbench.Scheduler.Store.{ok, err, find_job, job_of, update}
use android_workbench.Scheduler.Control.{own}
use android_workbench.Scheduler.Carries.{Carries}
use android_workbench.Scheduler.Reached.{at_start, then_step, by_lease}
use android_workbench.Scheduler.Reached.Carried.{Reached-Carries}
use android_workbench.Leases.Processes.{
  Reading, missing, unreadable, line, Proc, dead, alive, unknown, process_identity, process_status,
  process_group_status, is_adb_server, same_identity,
}
use android_workbench.Leases.Descent.{
  Link, links_from, extra, close, family, owns, remaining, descendants, verify_lease_tree,
}
use android_workbench.Leases.Descent.Closure.{Descends, family_iff}
use android_workbench.Leases.Descent.Tree.{TreeClosed, verify_lease_tree-TreeClosed}
use android_workbench.Leases.Requests.{closed, tracked, track, release, serve, lease_request}
use android_workbench.Leases.Requests.Released.{Released, lease_request-Released}
use android_workbench.Examples.Data.{env, config, plain_spec, no_lease, waiting_job, with_jobs}

abbrev owner : Process
owner = record { pid = 10; start = "100"; group = 10; boot = "boot-1" }

abbrev tool : Process
tool = record { pid = 20; start = "200"; group = 20; boot = "boot-1" }

abbrev stat_line : ℕ → ℕ → String → Reading
stat_line parent group start =
    line (record { zombie = false; parent = parent; group = group; start = start })

-- The owner has started the adb server and a tool, which has a child of its own; the tool may be a zombie.
abbrev reading : Bool → ℕ → Reading
reading tool_gone pid =
    if eqb pid 10
    then stat_line 1 10 "100"
    else if eqb pid 15
    then stat_line 10 15 "150"
    else if eqb pid 20
    then (if tool_gone
        then line (record { zombie = true; parent = 10; group = 20; start = "200" })
        else stat_line 10 20 "200")
    else if eqb pid 21
    then (if tool_gone then missing else stat_line 20 20 "210")
    else missing

abbrev proc : Bool → Proc
proc tool_gone = record {
  boot_id = some "boot-1";
  canonical = λ b. true;
  stat = reading tool_gone;
  signalled = λ pid. true;
  pids = 1 ∷ 10 ∷ 15 ∷ 20 ∷ 21 ∷ [];
  argv = λ pid.
      if eqb pid 15
      then some ("adb" ∷ "-L" ∷ "tcp:5037" ∷ "fork-server" ∷ "server" ∷ [])
      else some ("tool" ∷ []);
}

-- The tool and its child are found, and the adb server is passed over.
finds_family :
    descendants (proc false) 10 true
    ≡ ok (record { pid = 21; start = "210"; group = 20; boot = "boot-1" } ∷ tool ∷ [])
unfolding descendants links_from family close extra remaining process_identity is_adb_server
finds_family = refl

-- A reading that fails hides a process, which a strict search does not accept.
refuses_hidden :
    descendants (record (proc false) { stat = λ pid. unreadable }) 10 true
    ≡ err "Descendant process state is unknown"
unfolding descendants links_from
refuses_hidden = refl

group_lives : process_group_status (proc false) (some tool) ≡ alive
unfolding process_group_status process_status
group_lives = refl

other_boot : process_status (record (proc false) { boot_id = some "boot-2" }) (some tool) ≡ dead
unfolding process_status
other_boot = refl

malformed : process_status (proc false) (some (record tool { start = "" })) ≡ unknown
unfolding process_status
malformed = refl

abbrev lease_spec : Spec
lease_spec = record plain_spec {
  operation = "host.lease";
  device = none;
  resources = record { key = "path:/opt/tool"; mode = read } ∷ [];
  lease_owner = some owner;
  lease = record no_lease { mode = some "environment" };
}

abbrev tracking_spec : Spec
tracking_spec = record lease_spec { lease = record lease_spec.lease { process = some tool } }

passes : verify_lease_tree (proc true) tracking_spec ≡ ok tt
unfolding verify_lease_tree process_group_status process_status descendants links_from family close
    extra remaining process_identity is_adb_server
passes = refl

verify_lease_tree-TreeClosed_example : TreeClosed (proc true) tracking_spec
verify_lease_tree-TreeClosed_example = verify_lease_tree-TreeClosed (proc true) tracking_spec passes

abbrev links : List Link
links =
    record { child = 15; parent = 10 }
    ∷ record { child = 21; parent = 20 }
    ∷ record { child = 20; parent = 10 }
    ∷ []

family_iff_example : (owns (family links 10) 21 ≡ true) ↔ (◌≡◌ {A = ℕ} 21 10 ⊎ Descends links 10 21)
family_iff_example = family_iff links 10 21

abbrev lease_job : Spec → Job
lease_job spec = record (waiting_job "l1" 10 5 spec) { state = running; started = some 11 }

-- The tool is tracked while it runs, and the lease is released when it is gone.
abbrev leasing : State
leasing = with_jobs (lease_job lease_spec ∷ [])

abbrev tracks : State
tracks = (lease_request env (proc false) false "session-1" "l1" (track (some tool)) leasing).1

is_tracked :
    (lease_request env (proc false) false "session-1" "l1" (track (some tool)) leasing).0
    ≡ ok tracked
unfolding lease_request serve own job_of find_job update process_status descendants links_from
    family close extra remaining process_identity is_adb_server same_identity
is_tracked = refl

abbrev held : State
held = with_jobs (lease_job tracking_spec ∷ [])

-- While the tool lives the lease cannot be released.
release_refused :
    (lease_request env (proc false) false "session-1" "l1" release held).0
    ≡ err "Upstream process tree is alive or unknown; stop it before release"
unfolding lease_request serve own job_of find_job verify_lease_tree process_group_status
    process_status
release_refused = refl

is_released :
    (lease_request env (proc true) false "session-1" "l1" release held).0 ≡ ok (closed true)
unfolding lease_request serve own job_of find_job update verify_lease_tree process_group_status
    process_status descendants links_from family close extra remaining process_identity
    is_adb_server
is_released = refl

lease_request-Released_example :
    Released
      (proc true)
      "l1"
      true
      held
      (lease_request env (proc true) false "session-1" "l1" release held).1
lease_request-Released_example =
    lease_request-Released env (proc true) false "session-1" "l1" true held (closed true)
      is_released

Reached-Carries_example :
    Carries leasing.jobs
      (lease_request env (proc true) false "session-1" "l1" release tracks).1.jobs
Reached-Carries_example = Reached-Carries {config = config} {s = leasing} (
    then_step
      (then_step at_start (by_lease env (proc false) false "session-1" "l1" (track (some tool))))
      (by_lease env (proc true) false "session-1" "l1" release))
