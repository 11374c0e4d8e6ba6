-- ===== src/Scheduler/Insertion/Exclusion.antt =====
-- `choose_insertion` keeps the promise of the queue.
use android_workbench.Prelude.{
  ◌≡◌, ℕ, String, none, some, true, false, not, List, [], ◌∷◌, refl, Bool-cases, Option-cases, inl,
  inr, if◌then◌else◌,
}
use android_workbench.Scheduler.Model.{Job, Config, State, Env, Checkpoint, Observation}
use android_workbench.Scheduler.Grows.{Grows-refl}
use android_workbench.Scheduler.Store.{
  Action, Result, ok, err, pure, ◌>>=◌, and_then, job_of, find_job, update, event,
}
use android_workbench.Scheduler.Frame.{
  Weaker, Weaker-trans, Frame, Frame-pure, Frame->>=, Frame-if, Frame-gets, Frame-update,
}
use android_workbench.Scheduler.Exclusion.{Sound, Sound-Shrinks}
use android_workbench.Scheduler.Available.{is_legal, available}
use android_workbench.Scheduler.Available.Frame.{Frame-available}
use android_workbench.Scheduler.Available.Clear.{Fits}
use android_workbench.Scheduler.Answer.{available-Safe}
use android_workbench.Scheduler.Grant.{grant}
use android_workbench.Scheduler.Grant.Exclusion.{Backs, grant-Sound}
use android_workbench.Scheduler.Ends.{
  Ends-and_then, Ends-same, Ends-of, Ready, Ready-Shrinks, Backs-found,
}
use android_workbench.Scheduler.Insertion.{
  insertable_at, is_candidate_at, candidates_from, insertion_candidates, insertion_budget,
  shortened, insert_now, insert_chosen, still_open,
}

Weaker-shortened : (budget elapsed : ℕ) (j : Job) → Weaker j (shortened budget elapsed j)
Weaker-shortened budget elapsed j = record {
  same_id = refl;
  same_parent = refl;
  same_operation = refl;
  same_compute = refl;
  same_recovery = refl;
  same_targets = refl;
  lease_grows = Grows-refl _;
  still_active = λ h. h;
  still_occupies = λ h. h;
  still_broken = λ a h. h;
  fewer_resources = λ rs h. h;
}

-- The time limit says nothing about what a task holds, so the changed description backs what the
-- old one did.
shortened-Weaker : (budget elapsed : ℕ) (j : Job) → Weaker (shortened budget elapsed j) j
shortened-Weaker budget elapsed j = record {
  same_id = refl;
  same_parent = refl;
  same_operation = refl;
  same_compute = refl;
  same_recovery = refl;
  same_targets = refl;
  lease_grows = Grows-refl _;
  still_active = λ h. h;
  still_occupies = λ h. h;
  still_broken = λ a h. h;
  fewer_resources = λ rs h. h;
}

then_pure-state :
    {A B : Type 0} (P : State → Type 0) (b : B) (r : Result A × State)
    → P r.1
    → P (and_then r (λ _. pure b)).1
then_pure-state P b (ok a, s) h = h
then_pure-state P b (err e, s) h = h

module _ (env : Env) (config : Config) where
  Frame-is_candidate_at :
      (scene : Job) (cp : Checkpoint) (seen : Observation) (budget : ℕ) (j : Job)
      → Frame (is_candidate_at env config scene cp seen budget j)
  unfolding is_candidate_at
  Frame-is_candidate_at scene cp seen budget j =
      Frame-if (insertable_at config scene cp seen budget j)
        (Frame->>= (Frame-available env config (some scene) true j) (λ verdict. Frame-pure _))
        (Frame-pure false)

  Frame-candidates_from :
      (scene : Job) (cp : Checkpoint) (seen : Observation) (budget : ℕ) (js : List Job)
      → Frame (candidates_from env config scene cp seen budget js)
  unfolding candidates_from
  Frame-candidates_from scene cp seen budget [] = Frame-pure []
  Frame-candidates_from scene cp seen budget (j ∷ js) =
      Frame->>= (Frame-is_candidate_at scene cp seen budget j)
        (λ fits. Frame->>= (Frame-candidates_from scene cp seen budget js) (λ rest. Frame-pure _))

  -- The search for insertable tasks leaves the table no stronger.
  pub Frame-insertion_candidates :
      (scene : Job) (cp : Checkpoint) (seen : Observation) (remaining : ℕ)
      → Frame (insertion_candidates env config scene cp seen remaining)
  unfolding insertion_candidates
  Frame-insertion_candidates scene cp seen remaining =
      Frame->>= (Frame-gets _)
        (λ js. Frame-candidates_from scene cp seen (insertion_budget cp remaining) js)

  abbrev Safe : State → Type 0
  Safe s = Sound config s.jobs

  -- A task that is ready beside its scene is started there.
  insert_now-Sound :
      (budget elapsed : ℕ) (scene child : Job) (s : State)
      → Safe s
      → Ready config (some scene) child s.jobs
      → Safe (insert_now env budget elapsed scene child s).1
  unfolding insert_now update event
  insert_now-Sound budget elapsed scene child s h r =
      let f = shortened budget elapsed in
      let t = (update env child.id f s).1 in
      let moved = (Frame-update env child.id f (Weaker-shortened budget elapsed)).at s in
      let r' = Ready-Shrinks config (some scene) child s.jobs t.jobs moved r in
      let u = (event env child.id "inserted" (("parent", scene.id) ∷ []) t).1 in
      let fits : Fits config (some scene) (f child) t.jobs = record {
        clear = r'.fits.clear;
        workers = r'.fits.workers;
        leases = r'.fits.leases;
        compute = r'.fits.compute;
      } in
      then_pure-state Safe (some child.id) (grant env (some scene) (f child) u) (
        grant-Sound env config (some scene) (f child) u
          (λ row g. Weaker-trans (shortened-Weaker budget elapsed child) (r'.backs row g)) fits
          (Sound-Shrinks config s.jobs t.jobs moved h))

  -- What is known when the scene and the advised task have been read again.
  insert_legal-Sound :
      (budget elapsed : ℕ) (latest child : Job) (s : State)
      → Safe s
      → Backs child s.jobs
      → Safe
          ((available env config (some latest) true child >>= λ verdict.
              if is_legal verdict then insert_now env budget elapsed latest child else pure none)
            s).1
  insert_legal-Sound budget elapsed latest child s h b = Ends-same Safe _ (
      Ends-and_then Safe
        (λ verdict t. Safe t × (is_legal verdict ≡ true → Ready config (some latest) child t.jobs))
        (λ _. Safe) (available env config (some latest) true child s) _
        (available-Safe env config (some latest) true child s h b)
        λ verdict t a. elim (Bool-cases (is_legal verdict)) [
          | inl e ↦ rw e (
              Ends-of Safe (insert_now env budget elapsed latest child t)
                (insert_now-Sound budget elapsed latest child t a.0 (a.1 e)))
          | inr e ↦ rw e a.0
        ])

  -- A row that is read stands behind its task.
  pub read-Safe :
      {A : Type 0} (id : String) (k : Job → Action A)
      → ((job : Job) (s : State) → Safe s → Backs job s.jobs → Safe (k job s).1)
      → (s : State) → Safe s
      → Safe ((job_of id >>= k) s).1
  unfolding job_of
  read-Safe id k f s h = elim (Option-cases (find_job id s.jobs)) [
    | inl e ↦ rw e h
    | inr (job, e) ↦ rw e (f job s h (Backs-found id job s.jobs e))
  ]

  -- Whatever task is advised for whatever scene, and however long the advice took, the insertion
  -- leaves a sound queue sound, whether it starts the task, does not, or raises.
  pub insert_chosen-Sound :
      (scene chosen : String) (budget elapsed : ℕ) (s : State)
      → Sound config s.jobs
      → Sound config (insert_chosen env config scene chosen budget elapsed s).1.jobs
  unfolding insert_chosen
  insert_chosen-Sound scene chosen budget elapsed = read-Safe scene _ λ latest s h _.
      read-Safe chosen _
        (λ child t g b. elim (Bool-cases (not (still_open latest budget elapsed))) [
          | inl e ↦ rw e g
          | inr e ↦ rw e (insert_legal-Sound budget elapsed latest child t g b)
        ])
        s h
