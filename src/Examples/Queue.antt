-- ===== src/Examples/Queue.antt =====
-- The queue of the examples under `select`.
use android_workbench.Prelude.{
  none, some, inl, inr, true, keep, subst, ◌==◌, List, [], ◌∷◌, ◌≡◌, refl, arith, false, map,
  concat,
}
use android_workbench.Resource.{
  conflict, overlap, path_overlap, path_text, is_relative_to, pure_path, resource,
}
use android_workbench.Scheduler.Model.{Job, JobState, queued, running}
use android_workbench.Scheduler.Store.{
  ok, job_of, find_job, event, transaction, update, update_first,
}
use android_workbench.Scheduler.Available.{
  legal, available, dependencies_ready, dependencies_from, available_now, refusal,
  blocked_by_health, blocked_by_active, blocked_by_capacity, earlier_writer, yields_to, lease_limit,
}
use android_workbench.Scheduler.Choice.{best, older, top_priority}
use android_workbench.Scheduler.Choice.Oldest.{IsOldest}
use android_workbench.Scheduler.Grant.{grant, begin_grant}
use android_workbench.Scheduler.Exclusion.{Sound}
use android_workbench.Scheduler.Select.{aged, select, ask_and_grant, fresh_jobs, is_fresh, pick}
use android_workbench.Scheduler.Select.Exclusion.{select-Sound}
use android_workbench.Scheduler.Select.Pick.{Topmost, pick-Topmost, pick-aged}
use android_workbench.Scheduler.Grant.Exclusion.{grant-Sound}
use android_workbench.Scheduler.Available.Clear.{Fits, WhenLegal}
use android_workbench.Scheduler.Answer.{available-Fits}
use android_workbench.Scheduler.Ends.{Backs-found}
use android_workbench.Examples.Data.{env, config, queue, patient, urgent}

pub queue-Sound : Sound config queue.jobs
queue-Sound = record {
  distinct = ((refl, (refl, tt)), ((refl, tt), (tt, tt)));
  exclusive = (((λ a b. cc), ((λ a b. cc), tt)), (((λ a b. cc), tt), (tt, tt)));
  workers = omega arith;
  leases = omega arith;
  compute = omega arith;
}

select-Sound_example :
    Sound config
      (select env config false "device:phone-1" (patient ∷ urgent ∷ []) "q1" queue).1.jobs
select-Sound_example =
    select-Sound env config false "device:phone-1" (patient ∷ urgent ∷ []) "q1" queue queue-Sound

-- The states of the queue after a call of `select` that was advised to start `q1`.
states_after : List JobState
unfolding select job_of find_job ask_and_grant available dependencies_ready dependencies_from
    available_now refusal blocked_by_health blocked_by_active conflict overlap path_overlap
    path_text blocked_by_capacity earlier_writer yields_to concat is_relative_to pure_path resource
    lease_limit best top_priority fresh_jobs is_fresh pick event begin_grant grant transaction
    update update_first
states_after =
    map (λ (j : Job). j.state)
      (select env config false "device:phone-1" (patient ∷ urgent ∷ []) "q1" queue).1.jobs

-- `q1` is the oldest aged task and the one that was advised; the more urgent `q2` is started.
starts_urgent : states_after ≡ running ∷ queued ∷ running ∷ []
unfolding states_after
starts_urgent = refl

unfolded_row : find_job "q1" queue.jobs ≡ some patient
unfolding find_job
unfolded_row = refl

patient-Fits : Fits config none patient queue.jobs
unfolding conflict overlap path_overlap path_text is_relative_to pure_path lease_limit
patient-Fits = record {
  clear = ((λ a. inr (inr refl)), ((λ a. cc), ((λ a. cc), tt)));
  workers = λ p l. omega arith;
  leases = λ l. omega arith;
  compute = λ c. cc;
}

grant-Sound_example : Sound config (grant env none patient queue).1.jobs
grant-Sound_example =
    grant-Sound env config none patient queue (Backs-found "q1" patient queue.jobs unfolded_row)
      patient-Fits queue-Sound

available-Fits_example :
    WhenLegal (Fits config none patient) (available env config none true patient queue)
available-Fits_example = available-Fits env config none true patient queue

patient_may_start : (available env config none true patient queue).0 ≡ ok legal
unfolding available dependencies_ready dependencies_from available_now refusal blocked_by_health
    blocked_by_active conflict overlap path_overlap path_text blocked_by_capacity earlier_writer
    yields_to concat is_relative_to pure_path resource lease_limit
patient_may_start = refl

oldest_is_patient :
    (x : Job) (xs : List Job)
    → keep (aged env config) (patient ∷ urgent ∷ []) ≡ x ∷ xs
    → ((best older x xs).id == "q1") ≡ true
unfolding best
oldest_is_patient x xs e =
    subst (λ js. (elim js [ [] ↦ false | y ∷ ys ↦ (best older y ys).id == "q1" ]) ≡ true) e refl

pick-Topmost_example :
    Topmost (patient ∷ urgent ∷ []) (pick env config "q1" patient true (patient ∷ urgent ∷ []))
pick-Topmost_example =
    pick-Topmost env config "q1" (patient ∷ urgent ∷ []) patient true oldest_is_patient

pick-aged_example :
    (j : Job) × (pick env config "q2" urgent true (patient ∷ urgent ∷ []) ≡ some j)
    × IsOldest config env.now (patient ∷ urgent ∷ []) j
pick-aged_example =
    pick-aged env config "q2" (patient ∷ urgent ∷ []) urgent true (inl (omega arith))
      ((λ o. refl), ((λ o. let w = o.waited in absurd (omega (arith, w))), tt))
