-- ===== src/Leases/Processes/Gone.antt =====
-- What the verdict "dead" of workbench/common.py means for a group of processes.
use android_workbench.Prelude.{
  ℕ, String, Option, none, some, false, List, [], ◌∷◌, All, ◌≡◌, ◌≢◌, ◌⊎◌, inl, inr, arith, eqb,
  ◌==◌, eq_iff, eqb_iff, Bool-cases, false≢true, sym, ◌∙◌, refl,
}
use android_workbench.Scheduler.Model.{Process}
use android_workbench.Leases.Processes.{
  Reading, missing, unreadable, line, Proc, Liveness, alive, dead, unknown, in_group, group_step,
  after_boot, group_from, dead_group, group_after, process_status, process_group_status,
}

-- No line that can be read shows a live member of the group, and no line is hidden.
abbrev pub NoMember : ℕ → Reading → Type 0
NoMember group missing = Unit {0}
NoMember group unreadable = ⊥
NoMember group (line l) = in_group group l ≡ false

-- The identity is of another boot, or it leads its group and no process in /proc belongs to it.
abbrev pub GroupGone : Proc → Process → Type 0
GroupGone proc p =
    ((boot : String) × (proc.boot_id ≡ some boot) × (boot ≢ p.boot))
    ⊎ ((p.group ≡ p.pid) × All (λ pid. NoMember p.group (proc.stat pid)) proc.pids)

group_step-dead :
    (group : ℕ) (r : Reading) (rest : Liveness)
    → group_step group r rest ≡ dead
    → NoMember group r × (rest ≡ dead)
unfolding group_step
group_step-dead group missing rest h = (tt, h)
group_step-dead group unreadable rest h = cc
group_step-dead group (line l) rest h = ground arith

group_from-dead :
    (group : ℕ) (stat : ℕ → Reading) (pids : List ℕ)
    → group_from group stat pids ≡ dead
    → All (λ pid. NoMember group (stat pid)) pids
unfolding group_from
group_from-dead group stat [] h = tt
group_from-dead group stat (pid ∷ pids) h =
    let (here, further) = group_step-dead group (stat pid) (group_from group stat pids) h in
    (here, group_from-dead group stat pids further)

-- A verdict "dead" is that of another boot, or that of what is read next.
after_boot-dead :
    (proc : Proc) (p : Process) (o : Option String) (next : Liveness)
    → after_boot proc p o next ≡ dead
    → ((boot : String) × (o ≡ some boot) × (boot ≢ p.boot)) ⊎ (next ≡ dead)
after_boot-dead proc p none next h = cc
after_boot-dead proc p (some boot) next h = elim (Bool-cases (boot == p.boot)) [
  | inl same ↦ inr (ground arith)
  | inr other ↦ inl (boot, refl, λ e. false≢true (sym other ∙ (eq_iff boot p.boot).1 e))
]

dead_group-GroupGone : (proc : Proc) (p : Process) → dead_group proc p ≡ dead → GroupGone proc p
unfolding dead_group
dead_group-GroupGone proc p h = elim (Bool-cases (eqb p.group p.pid)) [
  | inl leads ↦ elim (after_boot-dead proc p proc.boot_id _ (rw leads at h)) [
    | inl other ↦ inl other
    | inr none_left ↦
        inr ((eqb_iff p.group p.pid).0 leads, group_from-dead p.group proc.stat proc.pids none_left)
  ]
  | inr not_leader ↦ cc (rw not_leader at h)
]

group_after-GroupGone :
    (proc : Proc) (p : Process) (st : Liveness)
    → group_after proc (some p) st ≡ dead
    → GroupGone proc p
unfolding group_after
group_after-GroupGone proc p alive h = cc
group_after-GroupGone proc p unknown h = cc
group_after-GroupGone proc p dead h = dead_group-GroupGone proc p h

pub process_group_status-GroupGone :
    (proc : Proc) (p : Process) → process_group_status proc (some p) ≡ dead → GroupGone proc p
unfolding process_group_status
process_group_status-GroupGone proc p h =
    group_after-GroupGone proc p (process_status proc (some p)) h
