-- ===== src/Leases/Requests/Released.antt =====
-- What a release of a lease, or the closing of its tree, has confirmed when workbench/service.py answers it.
use android_workbench.Prelude.{
  String, Option, none, some, Bool, true, false, ◌||◌, ◌==◌, if◌then◌else◌, ◌≡◌, ◌⊎◌, inl, inr,
  refl, ap, sym, subst, ◌∙◌, Bool-cases,
}
use android_workbench.Scheduler.Model.{Job, Env, State}
use android_workbench.Scheduler.Store.{
  Result, ok, err, Action, pure, raise, and_then, ◌>>=◌, ◌>>◌, job_of, found, find_job, update,
}
use android_workbench.Scheduler.Rows.{find-update_first}
use android_workbench.Scheduler.Ends.{find_job-id}
use android_workbench.Scheduler.Available.{is_lease}
use android_workbench.Scheduler.Control.{own}
use android_workbench.Leases.Processes.{Proc}
use android_workbench.Leases.Descent.{verify_lease_tree}
use android_workbench.Leases.Descent.Tree.{TreeClosed, verify_lease_tree-TreeClosed}
use android_workbench.Leases.Requests.{
  Request, Reply, lift, with_lease, has_mode, unrecorded, environment_of, upstream_closed,
  closed_lease, close_tree, serve, lease_request, release, close, closed,
}
use android_workbench.Leases.Requests.Reads.{
  Reads-job_of, Reads, Reads-upstream_closed, Reads-lift, Reads-if,
}

-- The lease's own tree is gone, or it has none.
abbrev pub OwnTreeGone : Proc → Job → Type 0
OwnTreeGone proc job = (has_mode "environment" job ≡ false) ⊎ TreeClosed proc job.spec

-- A call that may still run has an environment in the table, which is closed, and its tree is gone.
abbrev pub CallOver : Proc → Job → State → Type 0
CallOver proc job s =
    (unrecorded job ≡ false)
    ⊎ ((id : String) × (environment : Job) × (job.spec.lease.environment ≡ some id)
        × (find_job id s.jobs ≡ some environment)
        × (environment.spec.lease.tree_closed ≡ true)
        × TreeClosed proc environment.spec)

and_then-eq-ok :
    {A B : Type 0} (r : Result A × State) (f : A → Action B) {b : B}
    → (and_then r f).0 ≡ ok b
    → (a : A) × (r.0 ≡ ok a) × ((f a r.1).0 ≡ ok b) × ((and_then r f).1 ≡ (f a r.1).1)
and_then-eq-ok (ok a, s) f h = (a, refl, h, refl)
and_then-eq-ok (err e, s) f h = cc

-- After an action that changes nothing the rest starts from the same state.
>>=-Reads :
    {A B : Type 0} (m : Action A) (f : A → Action B) (s : State) {b : B}
    → Reads m
    → ((m >>= f) s).0 ≡ ok b
    → (a : A) × ((m s).0 ≡ ok a) × ((m >>= f) s ≡ f a s)
>>=-Reads {A} {B} m f s {b} reads h = go (m s) (reads.at s) h
  where
    go :
        (r : Result A × State)
        → r.1 ≡ s
        → (and_then r f).0 ≡ ok b
        → (a : A) × (r.0 ≡ ok a) × (and_then r f ≡ f a s)
    go (ok a, t) e h = (a, refl, ap (f a) e)
    go (err x, t) e h = cc

found-eq-ok :
    (o : Option Job) (s : State) {job : Job}
    → (found o s).0 ≡ ok job
    → (o ≡ some job) × ((found o s).1 ≡ s)
found-eq-ok none s h = cc
found-eq-ok (some j) s h = (cc, refl)

environment_of-eq-ok :
    (o : Option String) (s : State) {environment : Job}
    → (environment_of o s).0 ≡ ok environment
    → (id : String) × (o ≡ some id) × (find_job id s.jobs ≡ some environment)
unfolding environment_of job_of
environment_of-eq-ok none s h = cc
environment_of-eq-ok (some id) s h = (id, refl, (found-eq-ok (find_job id s.jobs) s h).0)

module _ (proc : Proc) (job : Job) (s : State) where
  upstream_closed-CallOver :
      {u : Unit {0}} → (upstream_closed proc job s).0 ≡ ok u → CallOver proc job s
  unfolding upstream_closed
  upstream_closed-CallOver h =
      let (environment, e, rest, _) =
        and_then-eq-ok (environment_of job.spec.lease.environment s) _ h in
      let (id, bound, row) = environment_of-eq-ok job.spec.lease.environment s e in
      elim (Bool-cases environment.spec.lease.tree_closed) [
        | inl done ↦ inr (
          id,
          environment,
          bound,
          row,
          done,
          verify_lease_tree-TreeClosed proc environment.spec (rw done at rest),
        )
        | inr still_open ↦ cc (rw still_open at rest)
      ]

  own_tree :
      {u : Unit {0}}
      → ((if has_mode "environment" job then lift (verify_lease_tree proc job.spec) else pure tt)
          s).0
        ≡ ok u
      → OwnTreeGone proc job
  own_tree h = elim (Bool-cases (has_mode "environment" job)) [
    | inl mode ↦ inr (verify_lease_tree-TreeClosed proc job.spec (rw mode at h))
    | inr other ↦ inl other
  ]

  call_over :
      {u : Unit {0}}
      → ((if unrecorded job then upstream_closed proc job else pure tt) s).0 ≡ ok u
      → CallOver proc job s
  call_over h = elim (Bool-cases (unrecorded job)) [
    | inl pending ↦ upstream_closed-CallOver (rw pending at h)
    | inr recorded ↦ inl recorded
  ]

-- What has been confirmed, and what stands in the table then.
pub record Released (proc : Proc) (id : String) (releases : Bool) (s t : State) : Type 0 where
  pub job : Job
  pub read : find_job id s.jobs ≡ some job
  pub own_tree_gone : OwnTreeGone proc job
  pub call_is_over : CallOver proc job s
  pub row : Job
  pub written : find_job id t.jobs ≡ some row
  pub tree_closed : row.spec.lease.tree_closed ≡ true
  pub released : row.spec.lease.released ≡ (releases || job.spec.lease.released)

module _ (env : Env) (proc : Proc) (releases : Bool) (job : Job) (s : State) where
  abbrev shut : Action Reply
  shut =
      update env job.id (λ row. with_lease (closed_lease releases job) row)
      >> pure (closed (releases || job.spec.lease.released))

  shut-Released :
      find_job job.id s.jobs ≡ some job
      → OwnTreeGone proc job
      → CallOver proc job s
      → Released proc job.id releases s (shut s).1
  unfolding update
  shut-Released read own_tree_gone over = record {
    job = job;
    read = read;
    own_tree_gone = own_tree_gone;
    call_is_over = over;
    row = record (with_lease (closed_lease releases job) job) { updated = env.now };
    written = find-update_first job.id _ job s.jobs (λ j. refl) read;
    tree_closed = refl;
    released = refl;
  }

  pub close_tree-Released :
      {r : Reply}
      → find_job job.id s.jobs ≡ some job
      → (close_tree env proc releases job s).0 ≡ ok r
      → Released proc job.id releases s (close_tree env proc releases job s).1
  unfolding close_tree
  close_tree-Released read h =
      let call = if unrecorded job then upstream_closed proc job else pure tt in
      let tree =
        if has_mode "environment" job then lift (verify_lease_tree proc job.spec) else pure tt in
      let (_, over, same) =
        >>=-Reads call (λ _. tree >> shut) s
          (Reads-if (unrecorded job) (Reads-upstream_closed proc job) (Reads-lift _)) h in
      let (_, gone, same') =
        >>=-Reads tree (λ _. shut) s
          (Reads-if (has_mode "environment" job) (Reads-lift _) (Reads-lift _))
          (ap (λ (r : Result Reply × State). r.0) (sym same) ∙ h) in
      subst (λ (r : Result Reply × State). Released proc job.id releases s r.1) (sym (same ∙ same'))
        (shut-Released read (own_tree proc job s gone) (call_over proc job s over))

job_of-eq-ok :
    (id : String) (s : State) {job : Job} → (job_of id s).0 ≡ ok job → find_job id s.jobs ≡ some job
unfolding job_of
job_of-eq-ok id s h = (found-eq-ok (find_job id s.jobs) s h).0

-- An answer is given only where the test is passed.
if-eq-ok :
    {A : Type 0} (b : Bool) (m : Action A) (e : String) (s : State) {a : A}
    → ((if b then m else raise e) s).0 ≡ ok a
    → ((if b then m else raise e) s ≡ m s) × ((m s).0 ≡ ok a)
if-eq-ok true m e s h = (refl, h)
if-eq-ok false m e s h = cc

-- A request that shuts a lease's tree.
abbrev pub shuts : Bool → Request
shuts true = release
shuts false = close

serve-shuts :
    (env : Env) (proc : Proc) (stopping : Bool) (session : String) (releases : Bool) (job : Job)
    → serve env proc stopping session (shuts releases) job ≡ close_tree env proc releases job
unfolding serve
serve-shuts env proc stopping session true job = refl
serve-shuts env proc stopping session false job = refl

-- If a release of a lease, or the closing of its tree, is answered, then: an environment lease's own tree
-- passes the check, that is, nothing of the tracked process's group is left, and the owner is dead
-- and the tree was closed before, or alive and every process below it has ended or is the adb server;
-- a call of the lease that may still run has an environment whose tree was closed before and passes
-- that check too; and the lease's row, under the same id, now says that the tree is closed, and after
-- a release that the lease is released.
pub lease_request-Released :
    (env : Env) (proc : Proc) (stopping : Bool) (session id : String) (releases : Bool) (s : State)
    (r : Reply)
    → (lease_request env proc stopping session id (shuts releases) s).0 ≡ ok r
    → Released proc id releases s (lease_request env proc stopping session id (shuts releases) s).1
unfolding lease_request own
lease_request-Released env proc stopping session id releases s r h =
    let request = serve env proc stopping session (shuts releases) in
    let checked = λ (job : Job). if is_lease job then request job else raise "Not a lease job" in
    let (job, e, same) = >>=-Reads (job_of id) _ s (Reads-job_of id) h in
    let read = job_of-eq-ok id s e in
    let is : job.id ≡ id = find_job-id id job s.jobs read in
    let h' = ap (λ (x : Result Reply × State). x.0) (sym same) ∙ h in
    let (own, h'') = if-eq-ok (job.owner == session) (checked job) _ s h' in
    let (lease, h3) = if-eq-ok (is_lease job) (request job) _ s h'' in
    let served =
      ap (λ (m : Action Reply). m s) (serve-shuts env proc stopping session releases job) in
    let answered = ap (λ (x : Result Reply × State). x.0) (sym served) ∙ h3 in
    let shut =
      close_tree-Released env proc releases job s
        (subst (λ i. find_job i s.jobs ≡ some job) (sym is) read) answered in
    subst (λ (x : Result Reply × State). Released proc id releases s x.1)
      (sym (same ∙ own ∙ lease ∙ served))
      (subst (λ i. Released proc i releases s (close_tree env proc releases job s).1) is shut)
