-- ===== src/Scheduler/Rows.antt =====
-- Reading a row after `Store.update` of workbench/store.py, and changes of a row that was just read.
use android_workbench.Prelude.{
  String, Option, none, some, true, false, List, [], ◌∷◌, ◌==◌, eq_iff, ◌≡◌, refl, sym, Bool-cases,
  inl, inr, some_inj, subst,
}
use android_workbench.Scheduler.Model.{Job, State, Env}
use android_workbench.Scheduler.Store.{
  Action, find_job, job_of, found, update, update_first, and_then, ◌>>=◌,
}
use android_workbench.Scheduler.Frame.{
  Weaker, Weaker-refl, Shrinks, Shrinks-refl, Shrinks-trans, Frame, Weaker-touch,
}
use android_workbench.Scheduler.Ends.{find_job-id}

-- The changed row is the one that is read next.
pub find-update_first :
    (id : String) (f : Job → Job) (row : Job) (js : List Job)
    → ((j : Job) → (f j).id ≡ j.id)
    → find_job id js ≡ some row
    → find_job id (update_first id f js) ≡ some (f row)
unfolding find_job update_first
find-update_first id f row [] k h = cc
find-update_first id f row (j ∷ js) k h = elim (Bool-cases (j.id == id)) [
  | inl e ↦
      let e' : ((f j).id == id) ≡ true = rw (k j) e in
      let same = some_inj (rw e at h) in rw (e, e', same) refl
  | inr e ↦ rw (e, e) (find-update_first id f row js k (rw e at h))
]

-- Every other row is read as before.
pub find-update_other :
    (id other : String) (f : Job → Job) (js : List Job)
    → ((j : Job) → (f j).id ≡ j.id)
    → (id == other) ≡ false
    → find_job other (update_first id f js) ≡ find_job other js
unfolding find_job update_first
find-update_other id other f [] k d = refl
find-update_other id other f (j ∷ js) k d = elim (Bool-cases (j.id == id)) [
  | inl e ↦
      let is = (eq_iff j.id id).0 e in
      let d' : (j.id == other) ≡ false = rw is d in
      let d'' : ((f j).id == other) ≡ false = rw (k j) d' in rw (e, d', d'') refl
  | inr e ↦ elim (Bool-cases (j.id == other)) [
    | inl o ↦ rw (e, o) refl
    | inr o ↦ rw (e, o) (find-update_other id other f js k d)
  ]
]

-- A row that is read and made weaker leaves the table no stronger.
pub Shrinks-update_found :
    (id : String) (f : Job → Job) (row : Job) (js : List Job)
    → find_job id js ≡ some row
    → Weaker row (f row)
    → Shrinks js (update_first id f js)
unfolding find_job update_first
Shrinks-update_found id f row [] h w = tt
Shrinks-update_found id f row (j ∷ js) h w = elim (Bool-cases (j.id == id)) [
  | inl e ↦
      let same = some_inj (rw e at h) in
      let w' : Weaker j (f j) = subst (λ x. Weaker x (f x)) (sym same) w in
      rw e (w', Shrinks-refl js)
  | inr e ↦ rw e (Weaker-refl j, Shrinks-update_found id f row js (rw e at h) w)
]

-- The row was read under the same lock: what is done with it starts from the row of the table.
pub job_of-Shrinks :
    {A : Type 0} (id : String) (k : Job → Action A)
    → ((job : Job) (s : State)
        → find_job job.id s.jobs ≡ some job
        → Shrinks s.jobs (k job s).1.jobs)
    → (s : State) → Shrinks s.jobs ((job_of id >>= k) s).1.jobs
unfolding job_of
job_of-Shrinks id k h s = go (find_job id s.jobs) refl
  where
    go : (o : Option Job) → find_job id s.jobs ≡ o → Shrinks s.jobs (and_then (found o s) k).1.jobs
    go none e = Shrinks-refl s.jobs
    go (some job) e =
        h job s (subst (λ i. find_job i s.jobs ≡ some job) (sym (find_job-id id job s.jobs e)) e)

-- An update of the row that was just read, and what follows it.
pub Shrinks-update :
    {A : Type 0} (env : Env) (f : Job → Job) (m : Action A) (job : Job) (s : State)
    → find_job job.id s.jobs ≡ some job
    → Weaker job (f job)
    → Frame m
    → Shrinks s.jobs ((update env job.id f >>= λ _. m) s).1.jobs
unfolding update
Shrinks-update env f m job s h w rest =
    let t = (update env job.id f s).1 in
    Shrinks-trans s.jobs t.jobs (m t).1.jobs
      (Shrinks-update_found job.id (λ j. record (f j) { updated = env.now }) job s.jobs h
        (Weaker-touch env.now job (f job) w))
      (rest.at t)
