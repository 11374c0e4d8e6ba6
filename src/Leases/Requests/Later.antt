-- ===== src/Leases/Requests/Later.antt =====
-- The leases that the requests of workbench/service.py write are later states of those that they read.
use android_workbench.Prelude.{
  String, Option, none, some, Bool, true, false, not, ◌||◌, eqb_iff, eq_iff, ◌≡◌, refl, arith,
}
use android_workbench.Scheduler.Model.{Lease, Job, Process}
use android_workbench.Scheduler.Grows.{Stays, Stays-refl, Stays-true, Fixed, Fixed-refl, Grows}
use android_workbench.Scheduler.Frame.{Weaker}
use android_workbench.Leases.Processes.{same_identity}
use android_workbench.Leases.Requests.{
  RecordedCall, with_lease, bound_to, serves, expecting, recorded, closed_lease, tracking, replaces,
}

pub Weaker-with_lease : (j : Job) (l : Lease) → Grows j.spec.lease l → Weaker j (with_lease l j)
Weaker-with_lease j l g = record {
  same_id = refl;
  same_parent = refl;
  same_operation = refl;
  same_compute = refl;
  same_recovery = refl;
  same_targets = refl;
  lease_grows = g;
  still_active = λ h. h;
  still_occupies = λ h. h;
  still_broken = λ a h. h;
  fewer_resources = λ rs h. h;
}

pub same_identity-eq : (p q : Process) → same_identity p q ≡ true → p ≡ q
unfolding same_identity
same_identity-eq p q h = ground (
  arith,
  eqb_iff p.pid q.pid,
  eq_iff p.start q.start,
  eqb_iff p.group q.group,
  eq_iff p.boot q.boot,
)

-- A tracked process is only tracked again.
pub Grows-tracking :
    (p : Process) (job : Job)
    → replaces job.spec.lease.process (some p) ≡ false
    → Grows job.spec.lease (tracking p job)
Grows-tracking p job h = record {
  closed = Stays-refl _;
  released = Stays-refl _;
  expected = Stays-refl _;
  process = go job.spec.lease.process h;
  environment = Fixed-refl _;
  receipt = Fixed-refl _;
}
  where
    go : (o : Option Process) → replaces o (some p) ≡ false → Fixed o (some p)
    go none h = tt
    go (some q) h = ground (arith, same_identity-eq q p)

pub Grows-expecting :
    (id : String) (job : Job)
    → bound_to id job.spec.lease.environment ≡ true
    → Grows job.spec.lease (expecting id job)
Grows-expecting id job h = record {
  closed = Stays-refl _;
  released = Stays-refl _;
  expected = Stays-true _;
  process = Fixed-refl _;
  environment = go job.spec.lease.environment h;
  receipt = Fixed-refl _;
}
  where
    go : (o : Option String) → bound_to id o ≡ true → Fixed o (some id)
    go none h = tt
    go (some e) h = ground (arith, eq_iff e id)

pub Grows-recorded :
    (call : RecordedCall) (kept : String) (job : Job)
    → job.spec.lease.receipt ≡ none
    → Grows job.spec.lease (recorded call kept job)
Grows-recorded call kept job e = record {
  closed = Stays-refl _;
  released = Stays-refl _;
  expected = Stays-refl _;
  process = Fixed-refl _;
  environment = Fixed-refl _;
  receipt = rw e tt;
}

pub Grows-closed_lease :
    (releases : Bool) (job : Job) → Grows job.spec.lease (closed_lease releases job)
Grows-closed_lease releases job = record {
  closed = Stays-true _;
  released = go job.spec.lease.released;
  expected = Stays-refl _;
  process = Fixed-refl _;
  environment = Fixed-refl _;
  receipt = Fixed-refl _;
}
  where
    go : (b : Bool) → Stays b (releases || b)
    go true = ground arith
    go false = tt

pub serves-bound :
    (job environment : Job)
    → not (serves job environment) ≡ false
    → bound_to environment.id job.spec.lease.environment ≡ true
unfolding serves
serves-bound job environment h = ground arith
