-- ===== src/Scheduler/Keeps.antt =====
-- Actions that keep the promise of the queue, whether they return or raise.
use android_workbench.Scheduler.Model.{Config, State}
use android_workbench.Scheduler.Store.{
  Result, ok, err, Action, and_then, ◌>>=◌, ◌>>◌, transaction, commit_or_rollback,
}
use android_workbench.Scheduler.Frame.{Frame}
use android_workbench.Scheduler.Exclusion.{Sound, Sound-Shrinks}

pub record Keeps {A : Type 0} (config : Config) (m : Action A) : Type 0 where
  pub at : (s : State) → Sound config s.jobs → Sound config (m s).1.jobs

module _ (config : Config) where
  pub Keeps-Frame : {A : Type 0} {m : Action A} → Frame m → Keeps config m
  Keeps-Frame {m = m} f = record { at = λ s h. Sound-Shrinks config s.jobs (m s).1.jobs (f.at s) h }

  and_then-Keeps :
      {A B : Type 0} (r : Result A × State) (f : A → Action B)
      → Sound config r.1.jobs
      → ((a : A) → Keeps config (f a))
      → Sound config (and_then r f).1.jobs
  and_then-Keeps (ok a, s) f h k = (k a).at s h
  and_then-Keeps (err e, s) f h k = h

  pub Keeps->>= :
      {A B : Type 0} {m : Action A} {f : A → Action B}
      → Keeps config m
      → ((a : A) → Keeps config (f a))
      → Keeps config (m >>= f)
  Keeps->>= {m = m} {f = f} h k = record { at = λ s p. and_then-Keeps (m s) f (h.at s p) k }

  pub Keeps->> :
      {B : Type 0} {m : Action (Unit {0})} {k : Action B}
      → Keeps config m
      → Keeps config k
      → Keeps config (m >> k)
  Keeps->> h k = Keeps->>= h (λ _. k)

  rollback-Keeps :
      {A : Type 0} (s : State) (r : Result A × State)
      → Sound config s.jobs
      → Sound config r.1.jobs
      → Sound config (commit_or_rollback s r).1.jobs
  rollback-Keeps s (ok a, t) h k = k
  rollback-Keeps s (err e, t) h k = h

  pub Keeps-transaction :
      {A : Type 0} {m : Action A} → Keeps config m → Keeps config (transaction m)
  unfolding transaction
  Keeps-transaction {m = m} h = record { at = λ s p. rollback-Keeps s (m s) p (h.at s p) }
