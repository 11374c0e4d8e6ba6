-- ===== src/Scheduler/Grant/Exclusion.antt =====
-- A grant that follows a legal answer keeps the promises of the queue.
use android_workbench.Prelude.{
  ℕ, ◌≤◌, ◌<◌, suc, opt_eq, String, Option, none, some, Bool, true, false, not, ◌&&◌, ◌||◌, List,
  [], ◌∷◌, count, All, ◌==◌, eq_iff, if◌then◌else◌, ◌≡◌, refl, ◌⊎◌, inl, inr, arith, Bool-cases,
  sym, ◌∙◌,
}
use android_workbench.Resource.Laws.{conflict_comm}
use android_workbench.Scheduler.Model.{Job, Config, Env, State, Process}
use android_workbench.Scheduler.Store.{ok, pure, update_first, find_job, update, event, transaction}
use android_workbench.Scheduler.Frame.{
  Weaker, Weaker-refl, Weaker-same, Frame, Frame->>=, Frame-if, Frame-pure, Frame-update,
  Frame-job_of,
}
use android_workbench.Scheduler.Finish.Frame.{Frame-finish}
use android_workbench.Scheduler.Exclusion.{
  repairs, own_worker, active_lease, active_compute, Compatible, Exclusive, Distinct, excused,
  inserted_in, repairs-Weaker, Sound, Sound-Shrinks,
}
use android_workbench.Scheduler.Available.{is_parent, is_lease, is_some, lease_limit}
use android_workbench.Scheduler.Available.Clear.{ClearOf, Fits}
use android_workbench.Scheduler.Grant.{grant, begin_grant, granted_row, parent_id, start_worker}

-- The row that the grant changes holds no more than the task that was found legal.
abbrev pub Backs : Job → List Job → Type 0
Backs job js = (row : Job) → find_job job.id js ≡ some row → Weaker job row

or_swap : (a b c d : Bool) → (a || b || c || d) ≡ true → (b || a || d || c) ≡ true
or_swap a b c d h = ground arith

own_worker_facts :
    (l : Bool) (p : Option Job)
    → (not l && not (is_some (parent_id p))) ≡ true
    → (is_some p ≡ false) × (l ≡ false)
own_worker_facts l none h = (refl, ground arith)
own_worker_facts l (some p) h = (ground arith, ground arith)

module _ (env : Env) (parent : Option Job) (job : Job) where
  -- The row after the grant, with the time of its change.
  abbrev started : Job → Job
  started row = record (granted_row env parent row) { updated = env.now }

  is_parent-inserted_in :
      (p : Option Job) (k : Job) → is_parent p k ≡ true → opt_eq (parent_id p) (some k.id) ≡ true
  is_parent-inserted_in none k h = cc
  is_parent-inserted_in (some p) k h = (eq_iff p.id k.id).1 (sym ((eq_iff k.id p.id).0 h))

  -- The started task is compatible with every row that was found clear.
  Compatible-started :
      (row k : Job) → Weaker job row → ClearOf parent job k → Compatible (started row) k
  Compatible-started row k w c a b = elim (c b) [
    | inl p ↦ inl (excused_first (is_parent-inserted_in parent k p))
    | inr (inl r) ↦ inl (excused_third (repairs-Weaker w (Weaker-refl k) b r))
    | inr (inr f) ↦ inr (w.fewer_resources k.spec.resources f)
  ]
    where
      excused_first : inserted_in (started row) k ≡ true → excused (started row) k ≡ true
      excused_first h = ground arith

      excused_third : repairs (started row) k ≡ true → excused (started row) k ≡ true
      excused_third h = ground arith

  Compatible-comm : (i j : Job) → Compatible i j → Compatible j i
  Compatible-comm i j c a b = elim (c b a) [
    | inl e ↦ inl (swapped e)
    | inr f ↦ inr (rw (conflict_comm j.spec.resources i.spec.resources) f)
  ]
    where
      swapped : excused i j ≡ true → excused j i ≡ true
      swapped h = or_swap (inserted_in i j) (inserted_in j i) (repairs i j) (repairs j i) h

  All-started :
      (i : Job) (js : List Job)
      → Backs job js
      → ClearOf parent job i
      → All (Compatible i) js
      → All (Compatible i) (update_first job.id started js)
  unfolding update_first find_job
  All-started i [] b c h = tt
  All-started i (j ∷ js) b c h = elim (Bool-cases (j.id == job.id)) [
    | inl e ↦ rw e (Compatible-comm (started j) i (Compatible-started j i (b j (rw e)) c), h.1)
    | inr e ↦ rw e (h.0, All-started i js (λ row f. b row (rw e f)) c h.1)
  ]

  All-cleared :
      (row : Job) (js : List Job)
      → Weaker job row
      → All (ClearOf parent job) js
      → All (Compatible (started row)) js
  All-cleared row [] w h = tt
  All-cleared row (j ∷ js) w h = (Compatible-started row j w h.0, All-cleared row js w h.1)

  Exclusive-started :
      (js : List Job)
      → Backs job js
      → All (ClearOf parent job) js
      → Exclusive js
      → Exclusive (update_first job.id started js)
  unfolding update_first find_job
  Exclusive-started [] b c h = tt
  Exclusive-started (j ∷ js) b c h = elim (Bool-cases (j.id == job.id)) [
    | inl e ↦ rw e (All-cleared j js (b j (rw e)) c.1, h.1)
    | inr e ↦
        let rest = λ (row : Job) (f : find_job job.id js ≡ some row). b row (rw e f) in
        rw e (All-started j js rest c.0 h.0, Exclusive-started js rest c.1 h.1)
  ]

  All-id-started :
      (a : String) (js : List Job)
      → All (λ k. (k.id == a) ≡ false) js
      → All (λ k. (k.id == a) ≡ false) (update_first job.id started js)
  unfolding update_first
  All-id-started a [] h = tt
  All-id-started a (j ∷ js) h = elim (Bool-cases (j.id == job.id)) [
    | inl e ↦ rw e h
    | inr e ↦ rw e (h.0, All-id-started a js h.1)
  ]

  Distinct-started : (js : List Job) → Distinct js → Distinct (update_first job.id started js)
  unfolding update_first
  Distinct-started [] h = tt
  Distinct-started (j ∷ js) h = elim (Bool-cases (j.id == job.id)) [
    | inl e ↦ rw e h
    | inr e ↦ rw e (All-id-started j.id js h.0, Distinct-started js h.1)
  ]

  -- A count grows only if the started row counts, and then by one at most.
  count-started_cases :
      (p : Job → Bool) (js : List Job)
      → (count p (update_first job.id started js) ≤ count p js)
        ⊎ ((row : Job) × (find_job job.id js ≡ some row)
            × (p (started row) ≡ true)
            × (count p (update_first job.id started js) ≤ suc (count p js)))
  unfolding update_first find_job
  count-started_cases p [] = inl (omega arith)
  count-started_cases p (j ∷ js) = elim (Bool-cases (j.id == job.id)) [
    | inl e ↦ elim (Bool-cases (p (started j))) [
      | inl q ↦ inr (j, rw e, q, rw (e, q) (ground arith))
      | inr q ↦ inl (rw (e, q) (ground arith))
    ]
    | inr e ↦ elim (count-started_cases p js) [
      | inl less ↦ inl (rw e (ground arith))
      | inr (row, f, q, more) ↦ inr (row, rw e f, q, rw e (ground arith))
    ]
  ]

  count-started :
      (p : Job → Bool) (limit : ℕ) (js : List Job)
      → count p js ≤ limit
      → ((row : Job) → find_job job.id js ≡ some row → p (started row) ≡ true → count p js < limit)
      → count p (update_first job.id started js) ≤ limit
  count-started p limit js h room = elim (count-started_cases p js) [
    | inl less ↦ omega arith
    | inr (row, f, q, more) ↦ omega (arith, room row f q)
  ]

  module _ (config : Config) (js : List Job) (backs : Backs job js)
      (fits : Fits config parent job js) where
    own_worker-room :
        (row : Job)
        → find_job job.id js ≡ some row
        → own_worker (started row) ≡ true
        → count own_worker js < config.max_workers
    own_worker-room row f q =
        let facts = own_worker_facts (is_lease row) parent q in
        fits.workers facts.0 (rw (← (backs row f).same_operation) facts.1)

    -- The table with the started row keeps every promise.
    Sound-started : Sound config js → Sound config (update_first job.id started js)
    Sound-started h = record {
      distinct = Distinct-started js h.distinct;
      exclusive = Exclusive-started js backs fits.clear h.exclusive;
      workers = count-started own_worker config.max_workers js h.workers own_worker-room;
      leases =
          count-started active_lease lease_limit js h.leases
            λ row f q. fits.leases (rw (← (backs row f).same_operation) q);
      compute =
          count-started active_compute config.max_compute js h.compute
            λ row f q. fits.compute (sym (backs row f).same_compute ∙ q);
    }

pub Frame-start_worker :
    (env : Env) (job : Job) (o : Option (Option Process)) → Frame (start_worker env job o)
unfolding start_worker
Frame-start_worker env job (some identity) =
    Frame-update env job.id (λ row. record row { worker = identity })
      (λ row. Weaker-same row (record row { worker = identity }) refl refl refl refl)
Frame-start_worker env job none = Frame->>= (Frame-job_of job.id) (λ row. Frame-finish env row _)

begin_grant_lem :
    (env : Env) (parent : Option Job) (job : Job) (s : State)
    → ((begin_grant env parent job s).0 ≡ ok tt)
      × ((begin_grant env parent job s).1.jobs
          ≡ update_first job.id (started env parent job) s.jobs)
unfolding begin_grant transaction update event
begin_grant_lem env parent job s = (refl, refl)

-- A grant to a task that fits leaves the queue as promised, whether its worker starts or not.
pub grant-Sound :
    (env : Env) (config : Config) (parent : Option Job) (job : Job) (s : State)
    → Backs job s.jobs
    → Fits config parent job s.jobs
    → Sound config s.jobs
    → Sound config (grant env parent job s).1.jobs
unfolding grant
grant-Sound env config parent job s backs fits h =
    let t = (begin_grant env parent job s).1 in
    let begun = begin_grant_lem env parent job s in
    let rest = if is_some parent then pure tt else start_worker env job (env.spawn job) in
    let sound : Sound config t.jobs =
      rw begun.1 (Sound-started env parent job config s.jobs backs fits h) in
    rw begun.0 (
      Sound-Shrinks config t.jobs (rest t).1.jobs
        ((Frame-if (is_some parent) (Frame-pure tt) (Frame-start_worker env job (env.spawn job))).at
          t)
        sound)
