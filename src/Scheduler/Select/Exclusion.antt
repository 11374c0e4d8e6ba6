-- ===== src/Scheduler/Select/Exclusion.antt =====
-- `select` keeps the promises of the queue: it grants only what was found legal in this call.
use android_workbench.Prelude.{
  String, Option, none, some, Bool, true, false, ◌&&◌, List, [], ◌∷◌, All, All-map, ◌==◌, ◌≡◌, refl,
  Bool-cases, inl, inr, arith, eqb, Option-cases, first, if◌then◌else◌,
}
use android_workbench.Scheduler.Model.{Job, Config, State, Env, is_queued}
use android_workbench.Scheduler.Store.{find_job, job_of, event}
use android_workbench.Scheduler.Frame.{Shrinks, Shrinks-refl, Shrinks-trans}
use android_workbench.Scheduler.Exclusion.{Sound, Sound-Shrinks}
use android_workbench.Scheduler.Available.{is_legal, available}
use android_workbench.Scheduler.Answer.{Answers, available-Ready}
use android_workbench.Scheduler.Grant.Exclusion.{Backs, grant-Sound}
use android_workbench.Scheduler.Ends.{
  Ends, Ends-and_then, Ends-map, Ends-same, Ends-of, Backs-Shrinks, Ready, Ready-Shrinks,
  Backs-found, Backs-All,
}
use android_workbench.Scheduler.Select.{
  select, ask_and_grant, pick, is_fresh, fresh_jobs, grant_picked, original_of, snapshot, lane_of,
}
use android_workbench.Scheduler.Select.Pick.{pick-Holds, Holds}

and_left : (a b : Bool) → (a && b) ≡ true → a ≡ true
and_left a b h = ground arith

module _ (env : Env) (config : Config) where
  abbrev Unchanged : State → State → Type 0
  Unchanged s t = Shrinks s.jobs t.jobs

  is_fresh-Ready :
      (lane : String) (j : Job) (s : State)
      → Backs j s.jobs
      → Ends
          (Unchanged s)
          (λ fresh t. Unchanged s t × (fresh ≡ true → Ready config none j t.jobs))
          (is_fresh env config lane j s)
  unfolding is_fresh
  is_fresh-Ready lane j s b = elim (Bool-cases (is_queued j.state && lane_of j == lane)) [
    | inl e ↦ rw e (
        Ends-and_then (Unchanged s) (Answers env config none true j s) _
          (available env config none true j s) _ (available-Ready env config none true j s b)
          (λ verdict t a. a))
    | inr e ↦ rw e (Shrinks-refl s.jobs, (λ f. cc))
  ]

  add_fresh :
      (j : Job) (b : Bool) (rest : List Job) (t : State)
      → (b ≡ true → Ready config none j t.jobs)
      → All (λ k. Ready config none k t.jobs) rest
      → All (λ k. Ready config none k t.jobs) (if b then j ∷ rest else rest)
  add_fresh j true rest t h k = (h refl, k)
  add_fresh j false rest t h k = k

  abbrev Freshes : State → List Job → State → Type 0
  Freshes s fresh t = Unchanged s t × All (λ k. Ready config none k t.jobs) fresh

  fresh_jobs-Ready :
      (lane : String) (js : List Job) (s : State)
      → All (λ j. Backs j s.jobs) js
      → Ends (Unchanged s) (Freshes s) (fresh_jobs env config lane js s)
  unfolding fresh_jobs
  fresh_jobs-Ready lane [] s b = (Shrinks-refl s.jobs, tt)
  fresh_jobs-Ready lane (j ∷ js) s b =
      Ends-and_then (Unchanged s)
        (λ fresh t. Unchanged s t × (fresh ≡ true → Ready config none j t.jobs)) (Freshes s)
        (is_fresh env config lane j s) _ (is_fresh-Ready lane j s b.0)
        λ fresh t h.
          let moved = All-map (λ k c. Backs-Shrinks k s.jobs t.jobs h.0 c) js b.1 in
          Ends-and_then (Unchanged s) (λ rest u. Unchanged s u × Freshes t rest u) (Freshes s)
            (fresh_jobs env config lane js t) _
            (Ends-map (Unchanged t) (Unchanged s) (Freshes t) _ (fresh_jobs env config lane js t)
              (fresh_jobs-Ready lane js t moved) (λ u c. Shrinks-trans s.jobs t.jobs u.jobs h.0 c)
              (λ rest u c. (Shrinks-trans s.jobs t.jobs u.jobs h.0 c.0, c)))
            λ rest u c. (
              c.0,
              add_fresh j fresh rest u
                  (λ e. Ready-Shrinks config none j t.jobs u.jobs c.1.0 (h.1 e)) c.1.1,
            )

  abbrev Safe : State → Type 0
  Safe s = Sound config s.jobs

  abbrev ReadyIn : State → Option Job → Type 0
  ReadyIn t = Holds (λ k. Ready config none k t.jobs)

  grant_picked-Sound :
      (o : Option Job) (s : State) → Safe s → ReadyIn s o → Safe (grant_picked env o s).1
  unfolding grant_picked event
  grant_picked-Sound none s h r = h
  grant_picked-Sound (some job) s h r =
      grant-Sound env config none job (event env job.id "decision" [] s).1 r.backs r.fits h

  found-Backs :
      (chosen : String) (s : State)
      → Safe s
      → Ends Safe (λ job t. Safe t × Backs job t.jobs) (job_of chosen s)
  unfolding job_of
  found-Backs chosen s h = elim (Option-cases (find_job chosen s.jobs)) [
    | inl e ↦ rw e h
    | inr (job, e) ↦ rw e (h, Backs-found chosen job s.jobs e)
  ]

  snapshot-Ends :
      (o : Option Job) (job : Job) (s : State)
      → Safe s × Backs job s.jobs
      → Ends Safe (λ _ t. Safe t × Backs job t.jobs) (snapshot o s)
  snapshot-Ends none job s h = h.0
  snapshot-Ends (some j) job s h = h

  original-Ends :
      (chosen : String) (candidates : List Job) (job : Job) (s : State)
      → Safe s × Backs job s.jobs
      → Ends Safe (λ _ t. Safe t × Backs job t.jobs) (original_of chosen candidates s)
  unfolding original_of
  original-Ends chosen candidates = snapshot-Ends (first (λ (j : Job). j.id == chosen) candidates)

  -- The rest of `select`, from the question about the advised task on.
  settled-Sound :
      (lane chosen : String) (job original : Job) (s : State)
      → Safe s
      → Backs job s.jobs
      → Safe (ask_and_grant env config lane chosen job original s).1
  unfolding ask_and_grant
  settled-Sound lane chosen job original s h b = Ends-same Safe _ (
      Ends-and_then Safe (λ verdict t. Safe t × Answers env config none true job s verdict t)
        (λ _. Safe) (available env config none true job s) _
        (Ends-map (Unchanged s) Safe (Answers env config none true job s) _
          (available env config none true job s) (available-Ready env config none true job s b)
          (λ t c. Sound-Shrinks config s.jobs t.jobs c h)
          (λ verdict t a. (Sound-Shrinks config s.jobs t.jobs a.0 h, a)))
        λ verdict t a.
          Ends-and_then Safe (λ fresh u. Safe u × Freshes t fresh u) (λ _. Safe)
            (fresh_jobs env config lane t.jobs t) _
            (Ends-map (Unchanged t) Safe (Freshes t) _ (fresh_jobs env config lane t.jobs t)
              (fresh_jobs-Ready lane t.jobs t (Backs-All t.jobs (a.0.distinct)))
              (λ u c. Sound-Shrinks config t.jobs u.jobs c a.0)
              (λ fresh u c. (Sound-Shrinks config t.jobs u.jobs c.0 a.0, c)))
            λ fresh u c.
              let valid = is_legal verdict && eqb job.revision original.revision in
              Ends-of Safe (grant_picked env (pick env config chosen job valid fresh) u) (
                grant_picked-Sound (pick env config chosen job valid fresh) u c.0 (
                  pick-Holds (λ k. Ready config none k u.jobs) env config chosen fresh c.1.1 job
                    valid
                    (λ v.
                      Ready-Shrinks config none job t.jobs u.jobs c.1.0
                        (a.1.1 (and_left (is_legal verdict) _ v))))))

  -- Whatever task is advised, from whatever snapshot of the queue, `select` leaves the queue as
  -- promised.
  pub select-Sound :
      (stopping : Bool) (lane : String) (candidates : List Job) (chosen : String) (s : State)
      → Sound config s.jobs
      → Sound config (select env config stopping lane candidates chosen s).1.jobs
  unfolding select
  select-Sound true lane candidates chosen s h = h
  select-Sound false lane candidates chosen s h = Ends-same Safe _ (
      Ends-and_then Safe (λ job t. Safe t × Backs job t.jobs) (λ _. Safe) (job_of chosen s) _
        (found-Backs chosen s h)
        λ job t a.
          Ends-and_then Safe (λ original u. Safe u × Backs job u.jobs) (λ _. Safe)
            (original_of chosen candidates t) _ (original-Ends chosen candidates job t a)
            λ original u c.
              Ends-of Safe (ask_and_grant env config lane chosen job original u)
                (settled-Sound lane chosen job original u c.0 c.1))
