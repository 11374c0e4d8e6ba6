-- ===== src/Leases/Descent/Tree.antt =====
-- What a passed check of `verify_lease_tree` in workbench/leases.py says of the processes in /proc.
use android_workbench.Prelude.{
  ℕ, Option, none, some, Bool, true, false, not, ◌&&◌, ◌||◌, List, [], ◌∷◌, if◌then◌else◌, ◌≡◌, ◌≢◌,
  ◌⊎◌, inl, inr, refl, ap, ◌∙◌, arith,
}
use android_workbench.Scheduler.Model.{Process, Spec}
use android_workbench.Scheduler.Store.{ok, err}
use android_workbench.Leases.Processes.{
  Proc, Liveness, alive, dead, unknown, is_dead, is_unknown, process_status,
}
use android_workbench.Leases.Processes.Gone.{GroupGone, process_group_status-GroupGone}
use android_workbench.Leases.Descent.{
  descendants, tracked_dead, no_descendants, owner_alone, verify_lease_tree,
}
use android_workbench.Leases.Descent.Below.{Below, Harmless, returned, descendants-Harmless}

-- What a passed check confirms: nothing of the tracked tree is left, and the owner is known, and has no
-- process below it or is dead and has closed its tree before.
pub record TreeClosed (proc : Proc) (spec : Spec) : Type 0 where
  pub tracked :
      (spec.lease.process ≡ none)
      ⊎ ((p : Process) × (spec.lease.process ≡ some p) × GroupGone proc p)
  pub owner : Process
  pub is_owner : spec.lease_owner ≡ some owner
  pub confirmed :
      ((process_status proc (some owner) ≡ dead) × (spec.lease.tree_closed ≡ true))
      ⊎ ((process_status proc (some owner) ≡ alive)
          × ((c : ℕ) → Below proc owner.pid c → c ≢ owner.pid → Harmless proc c))

is_dead_eq : (st : Liveness) → is_dead st ≡ true → st ≡ dead
is_dead_eq alive h = cc
is_dead_eq dead h = refl
is_dead_eq unknown h = cc

tracked_dead-gone :
    (proc : Proc) (o : Option Process)
    → tracked_dead proc o ≡ ok tt
    → (o ≡ none) ⊎ ((p : Process) × (o ≡ some p) × GroupGone proc p)
unfolding tracked_dead
tracked_dead-gone proc none h = inl refl
tracked_dead-gone proc (some p) h =
    inr (p, refl, process_group_status-GroupGone proc p (is_dead_eq _ (ground arith)))

no_descendants-nil : (ps : List Process) → no_descendants ps ≡ ok tt → ps ≡ []
unfolding no_descendants
no_descendants-nil [] h = refl
no_descendants-nil (p ∷ ps) h = cc

owner_alone-Harmless :
    (proc : Proc) (p : Process)
    → owner_alone proc (some p) alive ≡ ok tt
    → (c : ℕ) → Below proc p.pid c
    → c ≢ p.pid
    → Harmless proc c
unfolding owner_alone
owner_alone-Harmless proc p h =
    let (ps, d, n) = returned (descendants proc p.pid true) no_descendants h in
    descendants-Harmless proc p.pid (d ∙ ap ok (no_descendants-nil ps n))

abbrev OwnerDone : Proc → Bool → Process → Type 0
OwnerDone proc closed owner =
    ((process_status proc (some owner) ≡ dead) × (closed ≡ true))
    ⊎ ((process_status proc (some owner) ≡ alive)
        × ((c : ℕ) → Below proc owner.pid c → c ≢ owner.pid → Harmless proc c))

process_status-none : (proc : Proc) → process_status proc none ≡ unknown
unfolding process_status
process_status-none proc = refl

owner_done :
    (proc : Proc) (closed : Bool) (o : Option Process) (st : Liveness)
    → process_status proc o ≡ st
    → (if is_unknown st || (is_dead st && not closed)
        then err "Lease owner is absent or unknown; supervised tree closure required"
        else owner_alone proc o st)
      ≡ ok tt
    → (owner : Process) × (o ≡ some owner) × OwnerDone proc closed owner
owner_done proc closed none alive e h = cc (process_status-none proc)
owner_done proc closed none dead e h = cc (process_status-none proc)
owner_done proc closed o unknown e h = cc
owner_done proc closed (some p) alive e h = (p, refl, inr (e, owner_alone-Harmless proc p h))
owner_done proc true (some p) dead e h = (p, refl, inl (e, refl))
owner_done proc false (some p) dead e h = cc

-- A check of a lease's tree passes only if nothing of the tracked tree is left in /proc, and the owner is
-- dead and the tree was closed before, or alive and every process below it is the adb server.
pub verify_lease_tree-TreeClosed :
    (proc : Proc) (spec : Spec) → verify_lease_tree proc spec ≡ ok tt → TreeClosed proc spec
unfolding verify_lease_tree
verify_lease_tree-TreeClosed proc spec h =
    let (u, t, rest) = returned (tracked_dead proc spec.lease.process) _ h in
    let (owner, e, done) =
      owner_done proc spec.lease.tree_closed spec.lease_owner (process_status proc spec.lease_owner)
        refl rest in
    record {
      tracked = tracked_dead-gone proc spec.lease.process t;
      owner = owner;
      is_owner = e;
      confirmed = done;
    }
