-- ===== src/Scheduler/Available/Clear.antt =====
-- What a legal answer of `available` says of the active tasks.
use android_workbench.Prelude.{
  ◌≤◌, ◌<◌, String, Option, none, some, Bool, true, false, not, ◌&&◌, List, [], ◌∷◌, count, keep,
  All, if◌then◌else◌, ◌≡◌, ◌⊎◌, inl, inr, arith, Bool-cases, Option-cases,
}
use android_workbench.Resource.{conflict}
use android_workbench.Resource.Laws.{conflict_comm}
use android_workbench.Scheduler.Model.{Job, Config, Env, State, is_active}
use android_workbench.Scheduler.Store.{
  Result, ok, err, Action, and_then, ◌>>=◌, pure, job_of, same_process,
}
use android_workbench.Scheduler.Frame.{Weaker, Weaker-refl, Shrinks, Frame, Frame-if, Frame-pure}
use android_workbench.Scheduler.Exclusion.{
  repairs, repairs-Weaker, own_worker, active_lease, active_compute, count-Shrinks,
  own_worker-Weaker, active_lease-Weaker, active_compute-Weaker,
}
use android_workbench.Scheduler.Available.{
  Verdict, legal, waiting, available, available_now, bound_or_now, bound_elsewhere, abandon,
  wait_for_scene, verdict_or, earlier_writer, refusal, blocked_by_active, blocked_by_capacity,
  blocked_by_health, too_early, blocked_by_discovery, ◌or_else◌, is_parent, is_lease, is_some,
  uses_worker, lease_limit, lease_abandoned,
}
use android_workbench.Scheduler.Available.Frame.{Frame-earlier_writer}

-- The active task does not stand in the way.
abbrev pub ClearOf : Option Job → Job → Job → Type 0
ClearOf parent job current =
    is_active current.state ≡ true
    → (is_parent parent current ≡ true)
      ⊎ ((repairs job current ≡ true)
          ⊎ (conflict job.spec.resources current.spec.resources ≡ false))

-- The task can start beside the rows.
pub record Fits (config : Config) (parent : Option Job) (job : Job) (js : List Job) : Type 0 where
  pub clear : All (ClearOf parent job) js
  pub workers :
      is_some parent ≡ false → is_lease job ≡ false → count own_worker js < config.max_workers
  pub leases : is_lease job ≡ true → count active_lease js < lease_limit
  pub compute : job.spec.compute ≡ true → count active_compute js < config.max_compute

is_parent-Weaker :
    (parent : Option Job) (j k : Job)
    → Weaker j k
    → is_parent parent j ≡ true
    → is_parent parent k ≡ true
is_parent-Weaker none j k w h = h
is_parent-Weaker (some p) j k w h = rw w.same_id h

ClearOf-Weaker :
    (parent : Option Job) (job j k : Job) → Weaker j k → ClearOf parent job j → ClearOf parent job k
ClearOf-Weaker parent job j k w h a = elim (h (w.still_active a)) [
  | inl p ↦ inl (is_parent-Weaker parent j k w p)
  | inr (inl r) ↦ inr (inl (repairs-Weaker (Weaker-refl job) w a r))
  | inr (inr c) ↦
      let d = rw (conflict_comm job.spec.resources j.spec.resources) at c in
      inr (
        inr (
          rw (conflict_comm job.spec.resources k.spec.resources)
            (w.fewer_resources job.spec.resources d)))
]

All-ClearOf :
    (parent : Option Job) (job : Job) (js ks : List Job)
    → Shrinks js ks
    → All (ClearOf parent job) js
    → All (ClearOf parent job) ks
All-ClearOf parent job [] [] s h = tt
All-ClearOf parent job (j ∷ js) (k ∷ ks) s h =
    (ClearOf-Weaker parent job j k s.0 h.0, All-ClearOf parent job js ks s.1 h.1)
All-ClearOf parent job [] (k ∷ ks) s h = absurd s
All-ClearOf parent job (j ∷ js) [] s h = absurd s

module _ (config : Config) (parent : Option Job) (job : Job) where
  pub Fits-Shrinks :
      (js ks : List Job) → Shrinks js ks → Fits config parent job js → Fits config parent job ks
  Fits-Shrinks js ks s f = record {
    clear = All-ClearOf parent job js ks s f.clear;
    workers =
        λ p l. omega (arith, f.workers p l, count-Shrinks own_worker own_worker-Weaker js ks s);
    leases = λ l. omega (arith, f.leases l, count-Shrinks active_lease active_lease-Weaker js ks s);
    compute =
        λ c. omega (arith, f.compute c, count-Shrinks active_compute active_compute-Weaker js ks s);
  }

not_in_the_way :
    (p r l c : Bool)
    → (not p && not (r && l) && c) ≡ false
    → (p ≡ true) ⊎ ((r ≡ true) ⊎ (c ≡ false))
not_in_the_way p r l c h = ground arith

-- No active row is a reason to wait: each is clear.
ClearOf-active :
    (env : Env) (parent : Option Job) (job : Job) (js : List Job)
    → blocked_by_active env parent job (keep (λ (j : Job). is_active j.state) js) ≡ none
    → All (ClearOf parent job) js
unfolding blocked_by_active
ClearOf-active env parent job [] h = tt
ClearOf-active env parent job (j ∷ js) h = elim (Bool-cases (is_active j.state)) [
  | inl a ↦
      let blocks =
        not (is_parent parent j)
        && not (repairs job j && not (same_process env j.worker))
        && conflict job.spec.resources j.spec.resources in
      elim (Bool-cases blocks) [
        | inl b ↦ absurd (ground arith)
        | inr b ↦
            ((λ _. not_in_the_way _ _ _ _ b), ClearOf-active env parent job js (rw (a, b) at h))
      ]
  | inr i ↦ ((λ a. cc), ClearOf-active env parent job js (rw i at h))
]

count-keep_active :
    (p q : Job → Bool) (sub : (j : Job) → p j ≡ true → (is_active j.state ≡ true) × (q j ≡ true))
    (js : List Job)
    → count p js ≤ count q (keep (λ (j : Job). is_active j.state) js)
count-keep_active p q sub [] = omega arith
count-keep_active p q sub (j ∷ js) = ground (arith, sub j, count-keep_active p q sub js)

last_refusals :
    (a b c d e : Option String)
    → (a or_else b or_else c or_else d or_else e) ≡ none
    → (d ≡ none) × (e ≡ none)
last_refusals a b c d e h = ground arith

-- No limit is reached.
room_of_capacity :
    (config : Config) (parent : Option Job) (job : Job) (active : List Job)
    → blocked_by_capacity config parent job active ≡ none
    → (is_some parent ≡ false
        → is_lease job ≡ false
        → count uses_worker active < config.max_workers)
      × (is_lease job ≡ true → count is_lease active < lease_limit)
      × (job.spec.compute ≡ true → count (λ (j : Job). j.spec.compute) active < config.max_compute)
unfolding blocked_by_capacity
room_of_capacity config parent job active h = (ground arith, ground arith, ground arith)

own_worker-uses_worker :
    (j : Job) → own_worker j ≡ true → (is_active j.state ≡ true) × (uses_worker j ≡ true)
own_worker-uses_worker j h = (ground arith, ground arith)

module _ (env : Env) (config : Config) (parent : Option Job) (job : Job) where
  Fits-refusal :
      (s : State) → refusal env config parent job s ≡ none → Fits config parent job s.jobs
  unfolding refusal
  Fits-refusal s h =
      let active = keep (λ (j : Job). is_active j.state) s.jobs in
      let both =
        last_refusals (too_early env job) (blocked_by_discovery job s)
          (blocked_by_health env job s.jobs s.resources) (blocked_by_active env parent job active)
          (blocked_by_capacity config parent job active) h in
      let room = room_of_capacity config parent job active both.1 in
      record {
        clear = ClearOf-active env parent job s.jobs both.0;
        workers = λ p l. omega (
          arith,
          room.0 p l,
          count-keep_active own_worker uses_worker own_worker-uses_worker s.jobs,
        );
        leases = λ l.
            omega (
              arith,
              room.1 l,
              count-keep_active active_lease is_lease (λ j e. ground arith) s.jobs,
            );
        compute = λ c. omega (
          arith,
          room.2 c,
          count-keep_active active_compute (λ (j : Job). j.spec.compute) (λ j e. ground arith)
              s.jobs,
        );
      }

-- The predicate holds of the table of jobs if the answer is legal.
abbrev pub WhenLegal : (List Job → Type 0) → Result Verdict × State → Type 0
WhenLegal P (ok legal, s) = P s.jobs
WhenLegal P (ok (waiting reason), s) = Unit
WhenLegal P (err e, s) = Unit

WhenLegal-here : (P : List Job → Type 0) (r : Result Verdict × State) → P r.1.jobs → WhenLegal P r
WhenLegal-here P (ok legal, s) h = h
WhenLegal-here P (ok (waiting reason), s) h = tt
WhenLegal-here P (err e, s) h = tt

-- Whenever the action answers that the task may start, the predicate holds of the table it leaves.
pub record Lawful (P : List Job → Type 0) (m : Action Verdict) : Type 0 where
  pub at : (s : State) → WhenLegal P (m s)

WhenLegal-and_then :
    {A : Type 0} (P : List Job → Type 0) (r : Result A × State) (f : A → Action Verdict)
    → ((a : A) → Lawful P (f a))
    → WhenLegal P (and_then r f)
WhenLegal-and_then P (ok a, s) f h = (h a).at s
WhenLegal-and_then P (err e, s) f h = tt

module _ (P : List Job → Type 0) where
  Lawful->>= :
      {A : Type 0} (m : Action A) {f : A → Action Verdict}
      → ((a : A) → Lawful P (f a))
      → Lawful P (m >>= f)
  Lawful->>= m {f} h = record { at = λ s. WhenLegal-and_then P (m s) f h }

  Lawful-waiting : (reason : String) → Lawful P (pure (waiting reason))
  Lawful-waiting reason = record { at = λ s. tt }

  Lawful-if :
      (b : Bool) {m k : Action Verdict} → Lawful P m → Lawful P k → Lawful P (if b then m else k)
  Lawful-if true h l = h
  Lawful-if false h l = l

module _ (env : Env) (config : Config) (parent : Option Job) (fairness : Bool) (job : Job) where
  abbrev P : List Job → Type 0
  P = Fits config parent job

  -- The rest of the answer, where no refusal was found.
  abbrev last_question : List Job → Action Verdict
  last_question all =
      if fairness && not job.spec.recovery then earlier_writer env job all else pure legal

  legal_now : Lawful P (available_now env config parent fairness job)
  unfolding available_now verdict_or
  legal_now = record {
    at = λ s. elim (Option-cases (refusal env config parent job s)) [
      | inl e ↦
          let rest : Frame (last_question s.jobs) =
            Frame-if (fairness && not job.spec.recovery) (Frame-earlier_writer env job s.jobs)
              (Frame-pure legal) in
          rw e (
            WhenLegal-here P (last_question s.jobs s) (
              Fits-Shrinks config parent job s.jobs (last_question s.jobs s).1.jobs (rest.at s)
                (Fits-refusal env config parent job s e)))
      | inr (reason, e) ↦ rw e tt
    ];
  }

  legal_bound : (o : Option String) → Lawful P (bound_or_now env config parent fairness job o)
  unfolding bound_or_now wait_for_scene
  legal_bound none = legal_now
  legal_bound (some id) =
      Lawful->>= P (job_of id) (λ scene. Lawful->>= P _ (λ _. Lawful-waiting P _))

  -- After a legal answer the task fits beside every active task.
  pub available_legal : Lawful P (available env config parent fairness job)
  unfolding available abandon
  available_legal = Lawful->>= P _ λ ready. Lawful-if P (not ready) (Lawful-waiting P _) (
      Lawful-if P (lease_abandoned env job) (Lawful->>= P _ (λ _. Lawful-waiting P _))
        (legal_bound (bound_elsewhere parent job.spec.scene)))
