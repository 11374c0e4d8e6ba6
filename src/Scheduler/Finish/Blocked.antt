-- ===== src/Scheduler/Finish/Blocked.antt =====
-- The rows of the resources table that block a key, before and after a repair of workbench/service.py.
use android_workbench.Prelude.{
  String, Bool, true, not, ◌&&◌, List, [], ◌∷◌, ◌++◌, any, ◌==◌, eq_iff, ◌≡◌, refl, Bool-cases, inl,
  inr, arith,
}
use android_workbench.Scheduler.Model.{Job, Health, Outcome, Spec}
use android_workbench.Scheduler.Store.{upsert}
use android_workbench.Scheduler.Finish.{reconcile_rows, reconcile_row, same_row}

-- Some row blocks the key.
abbrev pub Blocked : String → List Health → Type 0
Blocked k rows = any (λ (h : Health). h.key == k) rows ≡ true

-- The row is one that the repair froze when it entered the queue.
abbrev pub frozen : Job → Health → Bool
frozen job h = any (same_row h) job.spec.recovery_health

-- A row that blocks the key is none of those that the task may repair.
abbrev pub Unrepaired : Job → String → List Health → Type 0
Unrepaired job k rows = any (λ (h : Health). h.key == k && not (frozen job h)) rows ≡ true

pub Unrepaired-Blocked :
    (job : Job) (k : String) (rows : List Health) → Unrepaired job k rows → Blocked k rows
Unrepaired-Blocked job k [] h = h
Unrepaired-Blocked job k (row ∷ rows) h = ground (arith, Unrepaired-Blocked job k rows)

Blocked-append_left : (k : String) (xs ys : List Health) → Blocked k xs → Blocked k (xs ++ ys)
Blocked-append_left k [] ys h = cc
Blocked-append_left k (x ∷ xs) ys h = ground (arith, Blocked-append_left k xs ys)

Blocked-append_right : (k : String) (xs ys : List Health) → Blocked k ys → Blocked k (xs ++ ys)
Blocked-append_right k [] ys h = h
Blocked-append_right k (x ∷ xs) ys h = ground (arith, Blocked-append_right k xs ys h)

-- A row that the repair did not freeze stays as it is.
pub reconcile_rows-Blocked :
    (job : Job) (result : Outcome) (specs : List (String × Spec)) (k : String) (rows : List Health)
    → Unrepaired job k rows
    → Blocked k (reconcile_rows job result specs rows)
unfolding reconcile_rows reconcile_row
reconcile_rows-Blocked job result specs k [] h = cc
reconcile_rows-Blocked job result specs k (row ∷ rows) h = elim (Bool-cases (frozen job row)) [
  | inl e ↦
      Blocked-append_right k (reconcile_row job result specs row) _
        (reconcile_rows-Blocked job result specs k rows (ground arith))
  | inr e ↦ elim (Bool-cases (row.key == k)) [
    | inl q ↦ rw (e, q) refl
    | inr q ↦ rw (e, q) (reconcile_rows-Blocked job result specs k rows (rw (e, q) at h))
  ]
]

pub upsert-Blocked :
    (k : String) (h : Health) (rows : List Health) → Blocked k rows → Blocked k (upsert h rows)
unfolding upsert
upsert-Blocked k h [] b = cc
upsert-Blocked k h (row ∷ rows) b = elim (Bool-cases (row.key == h.key)) [
  | inl e ↦ let same = (eq_iff row.key h.key).0 e in rw e (rw same at b)
  | inr e ↦ rw e (ground (arith, upsert-Blocked k h rows))
]
