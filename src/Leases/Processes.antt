-- ===== src/Leases/Processes.antt =====
-- workbench/common.py: what /proc says of a process that is known by its pid, its start time, its
-- group and the boot in which it ran (`process_identity`, `process_status`, `process_group_status`,
-- `is_adb_server`).
pub mod Gone
use android_workbench.Prelude.{
  ℕ, String, Option, none, some, Bool, true, false, not, ◌&&◌, ◌||◌, List, [], ◌∷◌, all, leb, ltb,
  eqb, codes, contains, ◌==◌, if◌then◌else◌,
}
use android_workbench.Scheduler.Model.{Process}

-- A line of /proc/<pid>/stat, as far as it is read.
pub record Stat : Type 0 where
  pub zombie : Bool
  pub parent : ℕ
  pub group : ℕ
  pub start : String

-- What an attempt to read such a line meets: no such process, an error or a line that cannot be
-- taken apart, or the line.
pub data Reading : Type 0 where
  missing unreadable : Reading
  line : Stat → Reading

-- /proc while a request is served. `boot_id` is the stripped text of the kernel's file, if it can be
-- read; `canonical` says whether `str(uuid.UUID(b)) == b`; `signalled` is false if `os.kill(pid, 0)`
-- finds no process; `pids` are the entries of /proc that are numbers.
pub record Proc : Type 0 where
  pub boot_id : Option String
  pub canonical : String → Bool
  pub stat : ℕ → Reading
  pub signalled : ℕ → Bool
  pub pids : List ℕ
  pub argv : ℕ → Option (List String)

pub data Liveness : Type 0 where
  alive dead unknown : Liveness

abbrev pub is_dead : Liveness → Bool
is_dead dead = true
is_dead _ = false

abbrev pub is_alive : Liveness → Bool
is_alive alive = true
is_alive _ = false

abbrev pub is_unknown : Liveness → Bool
is_unknown unknown = true
is_unknown _ = false

unfoldable pub same_identity : Process → Process → Bool
same_identity p q = eqb p.pid q.pid && p.start == q.start && eqb p.group q.group && p.boot == q.boot

identity_of : ℕ → Option String → Reading → Option Process
identity_of pid boot missing = none
identity_of pid boot unreadable = none
identity_of pid none (line l) = none
identity_of pid (some boot) (line l) =
    if l.zombie
    then none
    else some (record { pid = pid; start = l.start; group = l.group; boot = boot })

-- `process_identity`
unfoldable pub process_identity : Proc → ℕ → Option Process
unfolding identity_of
process_identity proc pid = identity_of pid proc.boot_id (proc.stat pid)

is_digit : ℕ → Bool
is_digit c = leb b'0' c && leb c b'9'

-- `isascii() and isdigit()`
all_digits : String → Bool
unfolding is_digit
all_digits s = not (s == "") && all is_digit (codes s)

is_identity : Proc → Process → Bool
unfolding all_digits
is_identity proc p =
    ltb 0 p.pid
    && ltb 0 p.group
    && all_digits p.start
    && not (p.boot == "")
    && proc.canonical p.boot

status_of_line : Process → Bool → Reading → Liveness
status_of_line p signalled missing = if signalled then unknown else dead
status_of_line p signalled unreadable = unknown
status_of_line p signalled (line l) =
    if l.zombie || not (l.start == p.start)
    then dead
    else if eqb l.group p.group
    then alive
    else unknown

-- The test of the boot, before anything else is read. A boot that is not the identity's has ended
-- the process.
abbrev after_boot : Proc → Process → Option String → Liveness → Liveness
after_boot proc p none next = unknown
after_boot proc p (some boot) next =
    if boot == "" || not (proc.canonical boot)
    then unknown
    else if not (boot == p.boot)
    then dead
    else next

unfoldable pub process_status : Proc → Option Process → Liveness
unfolding is_identity status_of_line
process_status proc none = unknown
process_status proc (some p) =
    if not (is_identity proc p)
    then unknown
    else after_boot proc p proc.boot_id (status_of_line p (proc.signalled p.pid) (proc.stat p.pid))

abbrev pub in_group : ℕ → Stat → Bool
in_group group l = not l.zombie && eqb l.group group

-- One round of the loop over /proc: the first member or unreadable line decides.
group_step : ℕ → Reading → Liveness → Liveness
group_step group missing rest = rest
group_step group unreadable rest = unknown
group_step group (line l) rest = if in_group group l then alive else rest

group_from : ℕ → (ℕ → Reading) → List ℕ → Liveness
unfolding group_step
group_from group stat [] = dead
group_from group stat (pid ∷ pids) = group_step group (stat pid) (group_from group stat pids)

dead_group : Proc → Process → Liveness
unfolding group_from
dead_group proc p =
    if not (eqb p.group p.pid)
    then unknown
    else after_boot proc p proc.boot_id (group_from p.group proc.stat proc.pids)

group_after : Proc → Option Process → Liveness → Liveness
group_after proc none st = st
group_after proc (some p) alive = alive
group_after proc (some p) unknown = unknown
group_after proc (some p) dead = dead_group proc p

-- `process_group_status`
unfoldable pub process_group_status : Proc → Option Process → Liveness
unfolding group_after dead_group
process_group_status proc identity = group_after proc identity (process_status proc identity)

adb_argv : Option (List String) → Bool
adb_argv none = false
adb_argv (some argv) = contains argv "adb" && contains argv "fork-server" && contains argv "server"

-- `is_adb_server`, of an identity that is there.
unfoldable pub is_adb_server : Proc → Process → Bool
unfolding adb_argv
is_adb_server proc p = adb_argv (proc.argv p.pid)
