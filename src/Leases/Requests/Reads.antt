-- ===== src/Leases/Requests/Reads.antt =====
-- Actions on a lease of workbench/service.py that change nothing, and what is done with a row that was just
-- read.
use android_workbench.Prelude.{
  String, Option, none, some, Bool, true, false, not, List, if◌then◌else◌, ◌≡◌, refl, ◌∙◌,
}
use android_workbench.Scheduler.Model.{Job, State, Process}
use android_workbench.Scheduler.Store.{
  Result, ok, err, Action, raise, and_then, ◌>>=◌, job_of, found, find_job,
}
use android_workbench.Scheduler.Frame.{Shrinks, Shrinks-refl}
use android_workbench.Leases.Processes.{Proc, process_status, is_alive}
use android_workbench.Leases.Descent.{descendants}
use android_workbench.Leases.Requests.{lift, environment_of, upstream_closed, listed, alive_below}

-- An action that changes nothing.
pub record Reads {A : Type 0} (m : Action A) : Type 0 where
  pub at : (s : State) → (m s).1 ≡ s

pub Reads-job_of : (id : String) → Reads (job_of id)
unfolding job_of
Reads-job_of id = record { at = λ s. go s (find_job id s.jobs) }
  where
    go : (s : State) (o : Option Job) → (found o s).1 ≡ s
    go s none = refl
    go s (some j) = refl

pub Reads->>= :
    {A B : Type 0} {m : Action A} {f : A → Action B}
    → Reads m
    → ((a : A) → Reads (f a))
    → Reads (m >>= f)
Reads->>= {A} {B} {m} {f} h k = record { at = λ s. go s (m s) (h.at s) }
  where
    go : (s : State) (r : Result A × State) → r.1 ≡ s → (and_then r f).1 ≡ s
    go s (ok a, t) e = (k a).at t ∙ e
    go s (err x, t) e = e

-- What is done with the row that was just read.
abbrev pub Local : {A : Type 0} → State → Action A → Type 0
Local s m = Shrinks s.jobs (m s).1.jobs

pub Local-if :
    {A : Type 0} (s : State) (b : Bool) (m k : Action A)
    → (b ≡ true → Local s m)
    → (b ≡ false → Local s k)
    → Local s (if b then m else k)
Local-if s true m k h g = h refl
Local-if s false m k h g = g refl

pub Local-refuse :
    {A : Type 0} (s : State) (b : Bool) (e : String) (m : Action A)
    → (b ≡ false → Local s m)
    → Local s (if b then raise e else m)
Local-refuse s b e m h = Local-if s b (raise e) m (λ _. Shrinks-refl s.jobs) h

pub Local-Reads :
    {A B : Type 0} (s : State) (m : Action A) (f : A → Action B)
    → Reads m
    → ((a : A) → Local s (f a))
    → Local s (m >>= f)
Local-Reads {A} {B} s m f r h = go (m s) (r.at s)
  where
    go : (x : Result A × State) → x.1 ≡ s → Shrinks s.jobs (and_then x f).1.jobs
    go (ok a, t) e = rw e (h a)
    go (err x, t) e = rw e (Shrinks-refl s.jobs)

pub Reads-lift : {A : Type 0} (r : Result A) → Reads (lift r)
Reads-lift r = record { at = λ s. refl }

pub Reads-if :
    {A : Type 0} (b : Bool) {m k : Action A} → Reads m → Reads k → Reads (if b then m else k)
Reads-if true h k = h
Reads-if false h k = k

pub Reads-upstream_closed : (proc : Proc) (job : Job) → Reads (upstream_closed proc job)
unfolding upstream_closed
Reads-upstream_closed proc job =
    Reads->>= (go job.spec.lease.environment) (λ environment.
      Reads-if (not environment.spec.lease.tree_closed) (Reads-lift _) (Reads-lift _))
  where
    go : (o : Option String) → Reads (environment_of o)
    go none = Reads-lift _
    go (some id) = Reads-job_of id

pub Reads-alive_below :
    (proc : Proc) (p : Process) (o : Option Process) → Reads (alive_below proc p o)
Reads-alive_below proc p none = Reads-lift _
Reads-alive_below proc p (some owner) =
    Reads-if (is_alive (process_status proc (some owner))) (go (descendants proc owner.pid true))
      (Reads-lift _)
  where
    go : (r : Result (List Process)) → Reads (listed p r)
    go (ok ps) = Reads-lift _
    go (err e) = Reads-lift _
