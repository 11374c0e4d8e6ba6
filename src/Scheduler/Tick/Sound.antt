-- ===== src/Scheduler/Tick/Sound.antt =====
-- `tick` and the promise of the queue.
use android_workbench.Prelude.{
  ℕ, ◌+◌, String, Option, none, some, true, false, not, ◌&&◌, ◌||◌, List, [], ◌∷◌, All, map, ltb,
  leb, ◌==◌, ◌≡◌, refl, sym, ◌∙◌, Bool-cases, inl, inr, arith, opt_eq,
}
use android_workbench.Scheduler.Model.{
  Health, Outcome, Job, Config, Env, State, is_active, is_queued,
}
use android_workbench.Scheduler.Grows.{Grows-refl}
use android_workbench.Scheduler.Store.{Action, each, same_process}
use android_workbench.Scheduler.Frame.{
  Weaker, Weaker-refl, Weaker-same, Shrinks, Shrinks-refl, Frame, Frame-pure, Frame-raise,
  Frame-gets, Frame-modify, Frame->>=, Frame->>, Frame-if, Frame-job_of, Frame-update, Frame-event,
  Frame-health,
}
use android_workbench.Scheduler.Exclusion.{Sound, Sound-Shrinks}
use android_workbench.Scheduler.Finish.Frame.{Frame-finish}
use android_workbench.Scheduler.Available.{Verdict, legal, waiting, is_lease, is_some}
use android_workbench.Scheduler.Available.Frame.{Frame-available}
use android_workbench.Scheduler.Tick.{
  is_overdue, wants_stop, stop_overdue, set_deadline, result_or_death, worker_died, watch, look_at,
  look_at_all, sort_in, wait_for, hand_over, hand_over_pending, in_use, tick, is_child,
}
use android_workbench.Scheduler.Tick.Death.{
  broken, after_death, NoResult, Alone, worker_died_lem, child_lem,
}

pub Frame-each :
    {A : Type 0} {f : A → Action (Unit {0})}
    → ((x : A) → Frame (f x))
    → (xs : List A) → Frame (each f xs)
unfolding each
Frame-each h [] = Frame-pure tt
Frame-each h (x ∷ xs) = Frame->> (h x) (Frame-each h xs)

-- Every worker that is gone has left a result.
abbrev pub NoDeath : Env → Type 0
NoDeath env =
    (job : Job)
    → same_process env job.worker ≡ false
    → env.saved_result job ≡ none
    → is_some job.worker ≡ false

module _ (env : Env) (config : Config) where
  Frame-is_overdue : (job : Job) (o : Option ℕ) → Frame (is_overdue env job o)
  Frame-is_overdue job none = Frame-raise _
  Frame-is_overdue job (some started) = Frame-pure _

  Frame-wants_stop : (job : Job) → Frame (wants_stop env job)
  unfolding wants_stop
  Frame-wants_stop job =
      Frame-if (not (same_process env job.worker) || is_lease job) (Frame-pure false)
        (Frame-if job.cancel (Frame-pure true) (Frame-is_overdue job job.started))

  Frame-set_deadline : (id : String) (t : ℕ) (known : Option ℕ) → Frame (set_deadline id t known)
  Frame-set_deadline id t none =
      Frame->>
        (Frame-modify (λ s. record s { stop_deadlines = (id, t) ∷ s.stop_deadlines })
          (λ s. Shrinks-refl s.jobs))
        (Frame-pure t)
  Frame-set_deadline id t (some known) = Frame-pure known

  Frame-stop_overdue : (job : Job) → Frame (stop_overdue env config job)
  unfolding stop_overdue
  Frame-stop_overdue job = Frame->>= (Frame-gets _) λ known.
      Frame->>= (Frame-set_deadline job.id (env.monotonic + config.cleanup_grace) known) λ deadline.
        Frame-if (leb deadline env.monotonic)
          (Frame-event env job.id "controller_deadline_exceeded" []) (Frame-pure tt)

  Frame-wait_for : (job : Job) (reason : String) → Frame (wait_for env job reason)
  Frame-wait_for job reason = Frame-if (opt_eq job.reason (some reason)) (Frame-pure tt) (
      Frame->>= (Frame-job_of job.id) λ row.
        Frame-if (is_queued row.state)
          (Frame-update env job.id (λ r. record r { reason = some reason })
            (λ r. Weaker-same r (record r { reason = some reason }) refl refl refl refl))
          (Frame-pure tt))

  Frame-sort_in :
      (job : Job) (lanes : List (String × List Job)) (v : Verdict) → Frame (sort_in env job lanes v)
  Frame-sort_in job lanes legal = Frame-pure _
  Frame-sort_in job lanes (waiting reason) = Frame->> (Frame-wait_for job reason) (Frame-pure lanes)

  Frame-look_at :
      (job : Job) (lanes : List (String × List Job)) → Frame (look_at env config job lanes)
  unfolding look_at
  Frame-look_at job lanes = Frame-if (not (is_queued job.state)) (Frame-pure lanes) (
      Frame-if (ltb (job.created + job.spec.queue_timeout) env.now)
        (Frame->> (Frame-finish env job _) (Frame-pure lanes))
        (Frame->>= (Frame-available env config none true job) (Frame-sort_in job lanes)))

  no_death :
      (job : Job)
      → NoDeath env
      → env.saved_result job ≡ none
      → (is_some job.worker && not (same_process env job.worker)) ≡ false
  no_death job n h = elim (Bool-cases (same_process env job.worker)) [
    | inl e ↦ rw e (ground arith)
    | inr e ↦ let gone = n job e h in rw gone refl
  ]

  Frame-result_or_death :
      (job : Job)
      → NoDeath env
      → (o : Option Outcome) → env.saved_result job ≡ o
      → Frame (result_or_death env job o)
  Frame-result_or_death job n (some saved) h =
      Frame-if (same_process env job.worker) (Frame-pure tt) (Frame-finish env job saved)
  Frame-result_or_death job n none h = rw (no_death job n h) (Frame-pure tt)

  Frame-watch : (job : Job) → NoDeath env → Frame (watch env config job)
  unfolding watch
  Frame-watch job n = Frame->>= (Frame-wants_stop job) λ stop.
      Frame->> (Frame-if stop (Frame-stop_overdue job) (Frame-pure tt))
        (Frame-result_or_death job n (env.saved_result job) refl)

  Frame-look_at_all :
      NoDeath env
      → (js : List Job) (lanes : List (String × List Job)) → Frame (look_at_all env config js lanes)
  unfolding look_at_all
  Frame-look_at_all n [] lanes = Frame-pure lanes
  Frame-look_at_all n (job ∷ js) lanes =
      Frame->>
        (Frame-if (is_active job.state && not (is_some job.parent)) (Frame-watch job n)
          (Frame-pure tt))
        (Frame->>= (Frame-look_at job lanes) (λ lanes'. Frame-look_at_all n js lanes'))

  Frame-hand_over_pending : (h : Health) → Frame (hand_over_pending h)
  unfolding hand_over
  Frame-hand_over_pending h =
      Frame-if (h.status == "manual_pending")
        (Frame->>= (Frame-gets (λ s. s.jobs))
          λ all. Frame-if (in_use all h.key) (Frame-pure tt) (Frame-health _))
        (Frame-pure tt)

  pub Frame-tick : NoDeath env → (selecting : List String) → Frame (tick env config selecting)
  unfolding tick
  Frame-tick n selecting = Frame->>= (Frame-gets (λ s. s.jobs)) λ all.
      Frame->>= (Frame-look_at_all n all []) λ lanes.
        Frame->>= (Frame-gets (λ s. s.resources))
          λ rows. Frame->> (Frame-each Frame-hand_over_pending rows) (Frame-pure _)

  -- A tick that finds no worker gone without a result keeps a sound queue sound: it stops what has run too
  -- long, takes the results, ends what has waited too long, asks which tasks may start, and hands over
  -- the phones that are asked for.
  pub tick-Sound :
      (selecting : List String) (s : State)
      → NoDeath env
      → Sound config s.jobs
      → Sound config (tick env config selecting s).1.jobs
  tick-Sound selecting s n h = Sound-Shrinks config s.jobs _ ((Frame-tick n selecting).at s) h

-- The task and its unfinished children are active.
abbrev pub StruckActive : Job → List Job → Type 0
StruckActive job js =
    All (λ j. ((j.id == job.id) || is_child job j) ≡ true → is_active j.state ≡ true) js

Weaker-broken :
    (env : Env) (reason : String) (j : Job)
    → is_active j.state ≡ true
    → Weaker j (broken env reason j)
Weaker-broken env reason j a = record {
  same_id = refl;
  same_parent = refl;
  same_operation = refl;
  same_compute = refl;
  same_recovery = refl;
  same_targets = refl;
  lease_grows = Grows-refl _;
  still_active = λ _. a;
  still_occupies = λ h. cc;
  still_broken = λ _ _. refl;
  fewer_resources = λ rs h. h;
}

Weaker-after_death :
    (env : Env) (job j : Job)
    → (((j.id == job.id) || is_child job j) ≡ true → is_active j.state ≡ true)
    → Weaker j (after_death env job j)
Weaker-after_death env job j a = elim (Bool-cases (j.id == job.id)) [
  | inl e ↦ rw e (Weaker-broken env "worker_died_outcome_unconfirmed" j (a (ground arith)))
  | inr e ↦ elim (Bool-cases (is_child job j)) [
    | inl c ↦
        rw (e, sym (child_lem job j) ∙ c)
          (Weaker-broken env "parent_controller_died" j (a (ground arith)))
    | inr c ↦ rw (e, sym (child_lem job j) ∙ c) (Weaker-refl j)
  ]
]

Shrinks-after_death :
    (env : Env) (job : Job) (js : List Job)
    → StruckActive job js
    → Shrinks js (map (after_death env job) js)
Shrinks-after_death env job [] a = tt
Shrinks-after_death env job (j ∷ js) a =
    (Weaker-after_death env job j a.0, Shrinks-after_death env job js a.1)

-- The death of a worker keeps a sound queue sound.
pub worker_died-Sound :
    (env : Env) (config : Config) (job : Job) (s : State)
    → Alone job s.jobs
    → NoResult env job
    → StruckActive job s.jobs
    → Sound config s.jobs
    → Sound config (worker_died env job s).1.jobs
worker_died-Sound env config job s l n a h = rw (worker_died_lem env job s h.distinct l n) (
    Sound-Shrinks config s.jobs (map (after_death env job) s.jobs)
      (Shrinks-after_death env job s.jobs a) h)
