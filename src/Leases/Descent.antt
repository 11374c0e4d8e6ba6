-- ===== src/Leases/Descent.antt =====
-- workbench/common.py: `descendants` (248-280), the processes that descend from a known supervisor, and
-- workbench/leases.py: `verify_lease_tree` (29-39), which asks for them.
pub mod Closure
pub mod Below
pub mod Tree
use android_workbench.Prelude.{
  ℕ, zero, suc, String, Option, none, some, Bool, true, false, not, ◌&&◌, ◌||◌, List, [], ◌∷◌, ◌++◌,
  map, length, any, keep, eqb, if◌then◌else◌,
}
use android_workbench.Scheduler.Model.{Process, Spec}
use android_workbench.Scheduler.Store.{Result, ok, err}
use android_workbench.Leases.Processes.{
  Stat, Reading, missing, unreadable, line, Proc, Liveness, is_dead, is_unknown, is_alive,
  process_identity, process_status, process_group_status, is_adb_server,
}

-- A process and its parent.
pub record Link : Type 0 where
  pub child : ℕ
  pub parent : ℕ

-- What follows is done only if nothing was raised.
infixl 5 ◌>>=◌ ◌>>◌
abbrev pub ◌>>=◌ : {A B : Type 0} → Result A → (A → Result B) → Result B
err raised >>= next = err raised
ok value >>= next = next value

abbrev pub ◌>>◌ : {B : Type 0} → Result (Unit {0}) → Result B → Result B
first_step >> next = first_step >>= λ done. next

-- One round of the loop that reads /proc; `rest` is what the other entries give.
link_of : Bool → ℕ → Reading → Result (List Link) → Result (List Link)
link_of strict pid missing rest = rest
link_of strict pid unreadable rest =
    if strict then err "Descendant process state is unknown" else rest
link_of strict pid (line l) rest =
    if l.zombie
    then rest
    else rest >>= λ links. ok (record { child = pid; parent = l.parent } ∷ links)

unfoldable pub links_from : Bool → (ℕ → Reading) → List ℕ → Result (List Link)
unfolding link_of
links_from strict stat [] = ok []
links_from strict stat (pid ∷ pids) = link_of strict pid (stat pid) (links_from strict stat pids)

-- `x in owned`
abbrev pub owns : List ℕ → ℕ → Bool
owns owned pid = any (eqb pid) owned

-- The children of owned processes that are not owned yet.
unfoldable pub extra : List Link → List ℕ → List ℕ
extra links owned =
    map (λ (l : Link). l.child)
      (keep (λ (l : Link). owns owned l.parent && not (owns owned l.child)) links)

-- `while True`, with fuel: a round adds a child that was not owned.
unfoldable pub close : ℕ → List Link → List ℕ → List ℕ
close zero links owned = owned
close (suc fuel) links owned = elim (extra links owned) [
  | [] ↦ owned
  | x ∷ xs ↦ close fuel links ((x ∷ xs) ++ owned)
]

unfoldable pub family : List Link → ℕ → List ℕ
family links pid = close (suc (length links)) links (pid ∷ [])

-- An owned process without an identity: strictly, it has to be gone or a zombie.
nameless : Bool → Reading → Result (List Process) → Result (List Process)
nameless false r rest = rest
nameless true missing rest = rest
nameless true unreadable rest = err "OSError"
nameless true (line l) rest =
    if l.zombie then rest else err "Descendant process identity is unknown"

named : Proc → Bool → Reading → Option Process → Result (List Process) → Result (List Process)
unfolding nameless
named proc strict r none rest = nameless strict r rest
named proc strict r (some p) rest =
    if is_adb_server proc p then rest else rest >>= λ ps. ok (p ∷ ps)

unfoldable pub remaining : Proc → Bool → List ℕ → Result (List Process)
unfolding named
remaining proc strict [] = ok []
remaining proc strict (pid ∷ pids) =
    named proc strict (proc.stat pid) (process_identity proc pid) (remaining proc strict pids)

-- `owned - {pid}`
abbrev pub others : ℕ → List ℕ → List ℕ
others pid = keep (λ x. not (eqb x pid))

unfoldable pub descendants : Proc → ℕ → Bool → Result (List Process)
descendants proc pid strict = do
  links ← links_from strict proc.stat proc.pids
  remaining proc strict (others pid (family links pid))

-- The tracked tree of the lease has to be dead.
tracked_dead : Proc → Option Process → Result (Unit {0})
tracked_dead proc none = ok tt
tracked_dead proc (some p) =
    if is_dead (process_group_status proc (some p))
    then ok tt
    else err "Upstream process tree is alive or unknown; stop it before release"

no_descendants : List Process → Result (Unit {0})
no_descendants [] = ok tt
no_descendants (p ∷ ps) = err "Lease owner descendants are still alive"

owner_alone : Proc → Option Process → Liveness → Result (Unit {0})
unfolding no_descendants
owner_alone proc none st = ok tt
owner_alone proc (some p) st =
    if is_alive st then descendants proc p.pid true >>= no_descendants else ok tt

unfoldable pub verify_lease_tree : Proc → Spec → Result (Unit {0})
unfolding tracked_dead owner_alone
verify_lease_tree proc spec = do
  tracked_dead proc spec.lease.process
  let st = process_status proc spec.lease_owner
  if is_unknown st || (is_dead st && not spec.lease.tree_closed)
      then err "Lease owner is absent or unknown; supervised tree closure required"
      else owner_alone proc spec.lease_owner st
