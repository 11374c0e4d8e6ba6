-- ===== src/Scheduler/Admission/Again.antt =====
-- A request that is sent twice: `submit` of workbench/service.py under a key that was used before.
use android_workbench.Prelude.{
  ℕ, String, some, none, Bool, true, List, [], ◌∷◌, first, any, ◌==◌, eq_iff, eq_refl, ◌≡◌, refl,
  sym, Bool-cases, Option-cases, inl, inr, subst,
}
use android_workbench.Scheduler.Model.{Spec, Job, Env, Config, State}
use android_workbench.Scheduler.Store.{
  Result, ok, err, ◌>>◌, transaction, commit_or_rollback, event,
}
use android_workbench.Scheduler.Choice.{older, insert_by}
use android_workbench.Scheduler.Ends.{Ends, Ends-and_then}
use android_workbench.Scheduler.Admission.{
  Session, Asked, is_earlier, earlier, check_capacity, check_dependencies, check_scene,
  refuse_reserved, new_row, collides, insert_job, insert_outputs, admit, admit_new, submit_prepared,
}
use android_workbench.Scheduler.Admission.Reads.{
  Same, Same->>=, Same-check_capacity, Same-check_dependencies, Same-check_scene,
  Same-refuse_reserved, Same-insert_outputs,
}

-- The first row under the key of the request is the task that answers it.
abbrev pub Recorded : Session → Asked → String → List Job → Type 0
Recorded session asked id js =
    (row : Job) × (first (is_earlier session asked.key) js ≡ some row)
    × (row.id ≡ id)
    × (row.request_hash ≡ asked.hash)

first-insert_by :
    (p : Job → Bool) (before : Job → Job → Bool) (x : Job) (js : List Job)
    → p x ≡ true
    → first p js ≡ none
    → first p (insert_by before x js) ≡ some x
unfolding insert_by
first-insert_by p before x [] h n = rw h refl
first-insert_by p before x (j ∷ js) h n = elim (Bool-cases (before j x)) [
  | inl e ↦ elim (Bool-cases (p j)) [
    | inl q ↦ let bad = rw q at n in cc
    | inr q ↦ rw (e, q) (first-insert_by p before x js h (rw q at n))
  ]
  | inr e ↦ rw (e, h) refl
]

abbrev Anything : State → Type 0
Anything s = Unit

-- What holds of the table before an action that leaves it alone holds afterwards.
carry :
    {A : Type 0} (P : List Job → Type 0) (js : List Job) (r : Result A × State)
    → r.1.jobs ≡ js
    → P js
    → Ends Anything (λ _ t. P t.jobs) r
carry P js (ok a, t) e h = subst P (sym e) h
carry P js (err x, t) e h = tt

committed :
    {A : Type 0} (Q : A → State → Type 0) (old : State) (r : Result A × State)
    → Ends Anything Q r
    → Ends Anything Q (commit_or_rollback old r)
committed Q old (ok a, t) h = h
committed Q old (err x, t) h = tt

module _ (env : Env) (session : Session) (asked : Asked) where
  -- No row is under the key.
  abbrev Fresh : List Job → Type 0
  Fresh js = first (is_earlier session asked.key) js ≡ none

  own_key :
      (id : String) (priority : ℕ) (spec : Spec)
      → is_earlier session asked.key (new_row env id session asked priority spec) ≡ true
  own_key id priority spec =
      rw (eq_refl session.token, eq_refl session.project, eq_refl asked.key) refl

  insert_job-Recorded :
      (id : String) (priority : ℕ) (spec : Spec) (s : State)
      → Fresh s.jobs
      → Ends Anything
          (λ _ t. Recorded session asked id t.jobs)
          (insert_job (new_row env id session asked priority spec) s)
  unfolding insert_job
  insert_job-Recorded id priority spec s n =
      let row = new_row env id session asked priority spec in
      elim (Bool-cases (any (collides row) s.jobs)) [
        | inl e ↦ rw e tt
        | inr e ↦ rw e (
          row,
          first-insert_by (is_earlier session asked.key) older row s.jobs (own_key id priority spec)
              n,
          refl,
          refl,
        )
      ]

  admit-Recorded :
      (id : String) (priority : ℕ) (spec : Spec) (s : State)
      → Fresh s.jobs
      → Ends Anything
          (λ _ t. Recorded session asked id t.jobs)
          (admit env id session asked priority spec s)
  unfolding admit transaction event
  admit-Recorded id priority spec s n =
      let row = new_row env id session asked priority spec in
      Ends-and_then Anything (λ _ t. Fresh t.jobs) (λ _ t. Recorded session asked id t.jobs)
        (refuse_reserved spec.outputs s) _
        (carry Fresh s.jobs (refuse_reserved spec.outputs s)
          ((Same-refuse_reserved spec.outputs).at s) n)
        λ _ t f.
          committed (λ _ u. Recorded session asked id u.jobs) t _
            (Ends-and_then Anything (λ _ u. Recorded session asked id u.jobs)
              (λ _ u. Recorded session asked id u.jobs)
              ((insert_job row >> insert_outputs id spec.outputs) t) _
              (Ends-and_then Anything (λ _ u. Recorded session asked id u.jobs)
                (λ _ u. Recorded session asked id u.jobs) (insert_job row t) _
                (insert_job-Recorded id priority spec t f)
                (λ _ u r.
                  carry (Recorded session asked id) u.jobs (insert_outputs id spec.outputs u)
                    ((Same-insert_outputs id spec.outputs).at u) r))
              (λ _ u r. r))

  module _ (config : Config) (id : String) (priority : ℕ) (spec : Spec) where
    Same-checks : Same (
        check_capacity config session
        >> check_dependencies session spec.dependencies
        >> check_scene session spec.scene spec.device)
    Same-checks =
        Same->>=
          (Same->>= (Same-check_capacity config session)
            (λ _. Same-check_dependencies session spec.dependencies))
          (λ _. Same-check_scene session spec.scene spec.device)

    abbrev Answered : String → State → Type 0
    Answered a t = Recorded session asked a t.jobs

    admit_new-Recorded :
        (s : State)
        → Fresh s.jobs
        → Ends Anything Answered (admit_new env config id session asked priority spec none s)
    unfolding admit_new
    admit_new-Recorded s n =
        let checks =
          check_capacity config session
          >> check_dependencies session spec.dependencies
          >> check_scene session spec.scene spec.device in
        Ends-and_then Anything (λ _ t. Answered id t) Answered
          ((checks >> admit env id session asked priority spec) s) _
          (Ends-and_then Anything (λ _ t. Fresh t.jobs) (λ _ t. Answered id t) (checks s) _
            (carry Fresh s.jobs (checks s) (Same-checks.at s) n)
            (λ _ t f. admit-Recorded id priority spec t f))
          (λ _ t r. r)

    submit_prepared-Recorded :
        (s : State)
        → Ends Anything Answered (submit_prepared env config id session asked priority spec s)
    unfolding submit_prepared earlier admit_new
    submit_prepared-Recorded s = elim (Option-cases (first (is_earlier session asked.key) s.jobs)) [
      | inl e ↦ rw e (admit_new-Recorded s e)
      | inr (row, e) ↦ elim (Bool-cases (row.request_hash == asked.hash)) [
        | inl h ↦ rw (e, h) (row, e, refl, (eq_iff row.request_hash asked.hash).0 h)
        | inr h ↦ rw (e, h) tt
      ]
    ]

ends_value :
    {A : Type 0} (Q : A → State → Type 0) (r : Result A × State) (a : A)
    → Ends Anything Q r
    → r.0 ≡ ok a
    → Q a r.1
ends_value Q (ok b, t) a h e = let same : b ≡ a = cc in subst (λ x. Q x t) same h
ends_value Q (err x, t) a h e = cc

-- The recorded request is answered with its task, and the tables stay as they are.
again :
    (env : Env) (config : Config) (id answer : String) (session : Session) (asked : Asked)
    (priority : ℕ) (spec : Spec) (s : State)
    → Recorded session asked answer s.jobs
    → submit_prepared env config id session asked priority spec s ≡ (ok answer, s)
unfolding submit_prepared earlier admit_new
again env config id answer session asked priority spec s (row, f, i, h) =
    rw (f, (eq_iff row.request_hash asked.hash).1 h, i) refl

-- If a submission is accepted, then the same request under the same key, sent again at any later time
-- at which nothing else has changed, is answered with the same task and changes nothing, whatever id
-- is drawn for it and however it is normalized.
pub submit_prepared-again :
    (env later : Env) (config config' : Config) (id id' answer : String) (session : Session)
    (asked : Asked) (priority priority' : ℕ) (spec spec' : Spec) (s : State)
    → (submit_prepared env config id session asked priority spec s).0 ≡ ok answer
    → submit_prepared later config' id' session asked priority' spec'
        (submit_prepared env config id session asked priority spec s).1
      ≡ (ok answer, (submit_prepared env config id session asked priority spec s).1)
submit_prepared-again env later config config' id id' answer session asked priority priority' spec
      spec' s e =
    let r = submit_prepared env config id session asked priority spec s in
    again later config' id' answer session asked priority' spec' r.1 (
      ends_value (λ a t. Recorded session asked a t.jobs) r answer
        (submit_prepared-Recorded env session asked config id priority spec s) e)
