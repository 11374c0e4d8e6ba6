-- ===== src/Scheduler/Control/Restart.antt =====
-- What the table of tasks is after a start of the service.
use android_workbench.Prelude.{
  some, List, [], ◌∷◌, ◌++◌, map, ◌≡◌, refl, if◌then◌else◌, Bool-cases, inl, inr,
}
use android_workbench.Scheduler.Model.{Job, Env, State, Config, is_active, needs_recovery}
use android_workbench.Scheduler.Grows.{Grows-refl}
use android_workbench.Scheduler.Store.{ok, update, event}
use android_workbench.Scheduler.Frame.{Weaker, Weaker-refl, Shrinks}
use android_workbench.Scheduler.Exclusion.{Distinct, Sound, Sound-Shrinks}
use android_workbench.Scheduler.Each.{Unused, update_first-skip, Changes, each-map}
use android_workbench.Scheduler.Control.{interrupt, interrupt_all, restart, interrupted_row}

-- The row after the start: an active task needs recovery, since its outcome is not known, and every
-- other row is as it was.
abbrev pub after_restart : Env → Job → Job
after_restart env j =
    if is_active j.state
    then record j {
      state = needs_recovery;
      reason = some "service_restarted_outcome_unconfirmed";
      updated = env.now;
    }
    else j

interrupt_lem :
    (env : Env) (j : Job) (js done : List Job) (s : State)
    → s.jobs ≡ done ++ j ∷ js
    → Unused j.id done
    → (interrupt env j s).1.jobs ≡ done ++ after_restart env j ∷ js
unfolding interrupt update event
interrupt_lem env j js done s e u = elim (Bool-cases (is_active j.state)) [
  | inl a ↦
      rw (a, e)
        (update_first-skip (λ k. record (interrupted_row k) { updated = env.now }) j js done u)
  | inr a ↦ rw a e
]

same_id : (env : Env) (j : Job) → (after_restart env j).id ≡ j.id
same_id env j = elim (Bool-cases (is_active j.state)) [ inl a ↦ rw a refl | inr a ↦ rw a refl ]

interrupt_ok : (env : Env) (j : Job) (s : State) → (interrupt env j s).0 ≡ ok tt
unfolding interrupt update event
interrupt_ok env j s = elim (Bool-cases (is_active j.state)) [
  | inl a ↦ rw a refl
  | inr a ↦ rw a refl
]

interrupt-Changes : (env : Env) → Changes (interrupt env) (after_restart env)
interrupt-Changes env = record {
  keeps_id = same_id env;
  returns = interrupt_ok env;
  at = interrupt_lem env;
}

-- If ids are unique, a start of the service gives exactly the active tasks the state needs_recovery,
-- the reason that their outcome is not confirmed and the time of the start, leaves the rest of these
-- rows as it was, and changes no other row.
pub restart_lem :
    (env : Env) (s : State)
    → Distinct s.jobs
    → (restart env s).1.jobs ≡ map (after_restart env) s.jobs
unfolding restart interrupt_all
restart_lem env s d = each-map (interrupt env) (after_restart env) s (interrupt-Changes env) d

Weaker-after : (env : Env) (j : Job) → Weaker j (after_restart env j)
Weaker-after env j = elim (Bool-cases (is_active j.state)) [
  | inl a ↦ rw a (record {
    same_id = refl;
    same_parent = refl;
    same_operation = refl;
    same_compute = refl;
    same_recovery = refl;
    same_targets = refl;
    lease_grows = Grows-refl _;
    still_active = λ h. a;
    still_occupies = λ h. cc;
    still_broken = λ b h. refl;
    fewer_resources = λ rs h. h;
  })
  | inr a ↦ rw a (Weaker-refl j)
]

Shrinks-map : (env : Env) (js : List Job) → Shrinks js (map (after_restart env) js)
Shrinks-map env [] = tt
Shrinks-map env (j ∷ js) = (Weaker-after env j, Shrinks-map env js)

-- A sound queue is sound after a start of the service.
pub restart-Sound :
    (env : Env) (config : Config) (s : State)
    → Sound config s.jobs
    → Sound config (restart env s).1.jobs
restart-Sound env config s h =
    rw (restart_lem env s h.distinct)
      (Sound-Shrinks config s.jobs (map (after_restart env) s.jobs) (Shrinks-map env s.jobs) h)
