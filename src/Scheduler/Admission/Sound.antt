-- ===== src/Scheduler/Admission/Sound.antt =====
-- A new task keeps the promise of the queue: it is not active, and its id is its own.
use android_workbench.Prelude.{
  Option, some, none, first, opt_eq, ℕ, String, Bool, false, List, [], ◌∷◌, any, All, count, ◌==◌,
  eq_iff, ◌≡◌, refl, sym, ◌∙◌, Bool-cases, inl, inr, false≢true, arith,
}
use android_workbench.Scheduler.Model.{Dependency, Spec, Job, Env, Config, is_active}
use android_workbench.Scheduler.Choice.{older, insert_by}
use android_workbench.Scheduler.Exclusion.{
  Sound, Distinct, Exclusive, Compatible, own_worker, active_lease, active_compute,
}
use android_workbench.Scheduler.Frame.{
  Shrinks-refl, Frame, Frame-pure, Frame-raise, Frame-gets, Frame-modify, Frame->>=, Frame->>,
  Frame-if, Frame-job_of, Frame-event,
}
use android_workbench.Scheduler.Keeps.{Keeps, Keeps-Frame, Keeps->>, Keeps->>=, Keeps-transaction}
use android_workbench.Scheduler.Admission.{
  Asked, collides, answer_earlier, earlier, is_earlier, check_capacity, shared, check_dependencies,
  check_scene, admit_new, submit_prepared, Session, reserved, refuse_reserved, new_row, insert_job,
  insert_outputs, admit, taken, with_output,
}

All-insert_by :
    (P : Job → Type 0) (before : Job → Job → Bool) (x : Job) (js : List Job)
    → P x
    → All P js
    → All P (insert_by before x js)
unfolding insert_by
All-insert_by P before x [] p h = (p, tt)
All-insert_by P before x (j ∷ js) p h = elim (Bool-cases (before j x)) [
  | inl e ↦ rw e (h.0, All-insert_by P before x js p h.1)
  | inr e ↦ rw e (p, h)
]

-- A row that is not active is compatible with every row.
All-idle : (x : Job) (js : List Job) → is_active x.state ≡ false → All (Compatible x) js
All-idle x [] i = tt
All-idle x (j ∷ js) i = ((λ a b. absurd (false≢true (sym i ∙ a))), All-idle x js i)

Exclusive-insert_by :
    (before : Job → Job → Bool) (x : Job) (js : List Job)
    → is_active x.state ≡ false
    → Exclusive js
    → Exclusive (insert_by before x js)
unfolding insert_by
Exclusive-insert_by before x [] i h = (tt, tt)
Exclusive-insert_by before x (j ∷ js) i h = elim (Bool-cases (before j x)) [
  | inl e ↦ rw e (
    All-insert_by (Compatible j) before x js (λ a b. absurd (false≢true (sym i ∙ b))) h.0,
    Exclusive-insert_by before x js i h.1,
  )
  | inr e ↦ rw e (All-idle x (j ∷ js) i, h)
]

-- No row has the new id.
Unused-All :
    (id : String) (js : List Job)
    → any (λ (j : Job). j.id == id) js ≡ false
    → All (λ k. (k.id == id) ≡ false) js
Unused-All id [] u = tt
Unused-All id (j ∷ js) u = (ground arith, Unused-All id js (ground arith))

other_way : (a b : String) → (a == b) ≡ false → (b == a) ≡ false
other_way a b h = elim (Bool-cases (b == a)) [
  | inl e ↦ absurd (false≢true (sym h ∙ (eq_iff a b).1 (sym ((eq_iff b a).0 e))))
  | inr e ↦ e
]

Distinct-insert_by :
    (before : Job → Job → Bool) (x : Job) (js : List Job)
    → All (λ k. (k.id == x.id) ≡ false) js
    → Distinct js
    → Distinct (insert_by before x js)
unfolding insert_by
Distinct-insert_by before x [] u d = (tt, tt)
Distinct-insert_by before x (j ∷ js) u d = elim (Bool-cases (before j x)) [
  | inl e ↦ rw e (
    All-insert_by (λ k. (k.id == j.id) ≡ false) before x js (other_way j.id x.id u.0) d.0,
    Distinct-insert_by before x js u.1 d.1,
  )
  | inr e ↦ rw e (u, d)
]

count-insert_by :
    (p : Job → Bool) (before : Job → Job → Bool) (x : Job) (js : List Job)
    → p x ≡ false
    → count p (insert_by before x js) ≡ count p js
unfolding insert_by
count-insert_by p before x [] f = rw f refl
count-insert_by p before x (j ∷ js) f = elim (Bool-cases (before j x)) [
  | inl e ↦ rw e (rw (count-insert_by p before x js f) refl)
  | inr e ↦ rw (e, f) refl
]

Sound-insert_by :
    (config : Config) (before : Job → Job → Bool) (x : Job) (js : List Job)
    → is_active x.state ≡ false
    → own_worker x ≡ false
    → any (λ (j : Job). j.id == x.id) js ≡ false
    → Sound config js
    → Sound config (insert_by before x js)
Sound-insert_by config before x js i o u h = record {
  distinct = Distinct-insert_by before x js (Unused-All x.id js u) h.distinct;
  exclusive = Exclusive-insert_by before x js i h.exclusive;
  workers = rw (count-insert_by own_worker before x js o) h.workers;
  leases = rw (count-insert_by active_lease before x js (rw i refl)) h.leases;
  compute = rw (count-insert_by active_compute before x js (rw i refl)) h.compute;
}

no_collision :
    (row : Job) (js : List Job)
    → any (collides row) js ≡ false
    → any (λ (j : Job). j.id == row.id) js ≡ false
no_collision row [] h = refl
no_collision row (j ∷ js) h = ground (arith, no_collision row js)

module _ (env : Env) (config : Config) where
  pub Frame-refuse_reserved : (outputs : List String) → Frame (refuse_reserved outputs)
  unfolding refuse_reserved
  Frame-refuse_reserved [] = Frame-pure tt
  Frame-refuse_reserved (output ∷ rest) =
      Frame->>= (Frame-gets _)
        (λ rows. Frame-if (reserved rows output) (Frame-raise _) (Frame-refuse_reserved rest))

  pub Frame-insert_outputs :
      (id : String) (outputs : List String) → Frame (insert_outputs id outputs)
  unfolding insert_outputs
  Frame-insert_outputs id [] = Frame-pure tt
  Frame-insert_outputs id (output ∷ rest) = Frame->>= (Frame-gets _) λ rows.
      Frame-if (taken rows output) (Frame-raise _) (
        Frame->> (Frame-modify (with_output id output) (λ s. Shrinks-refl s.jobs))
          (Frame-insert_outputs id rest))

  Keeps-insert_job :
      (id : String) (session : Session) (asked : Asked) (priority : ℕ) (spec : Spec)
      → Keeps config (insert_job (new_row env id session asked priority spec))
  unfolding insert_job
  Keeps-insert_job id session asked priority spec =
      let row = new_row env id session asked priority spec in
      record {
        at = λ s h. elim (Bool-cases (any (collides row) s.jobs)) [
          | inl e ↦ rw e h
          | inr e ↦
              rw e (Sound-insert_by config older row s.jobs refl refl (no_collision row s.jobs e) h)
        ];
      }

  Keeps-admit :
      (id : String) (session : Session) (asked : Asked) (priority : ℕ) (spec : Spec)
      → Keeps config (admit env id session asked priority spec)
  unfolding admit
  Keeps-admit id session asked priority spec =
      Keeps->> config (Keeps-Frame config (Frame-refuse_reserved spec.outputs)) (
        Keeps-transaction config (
          Keeps->> config
            (Keeps->> config (Keeps-insert_job id session asked priority spec)
              (Keeps-Frame config (Frame-insert_outputs id spec.outputs)))
            (Keeps-Frame config (Frame-event env id "accepted" _))))

  Frame-answer_earlier : (hash : String) (o : Option Job) → Frame (answer_earlier hash o)
  Frame-answer_earlier hash none = Frame-pure none
  Frame-answer_earlier hash (some j) =
      Frame-if (j.request_hash == hash) (Frame-pure (some j.id)) (Frame-raise _)

  pub Frame-earlier : (session : Session) (asked : Asked) → Frame (earlier session asked)
  unfolding earlier
  Frame-earlier session asked = record {
    at = λ s. (Frame-answer_earlier asked.hash (first (is_earlier session asked.key) s.jobs)).at s;
  }

  pub Frame-check_capacity : (session : Session) → Frame (check_capacity config session)
  unfolding check_capacity
  Frame-check_capacity session =
      Frame->>= (Frame-gets (λ s. s.jobs)) (λ all. Frame-if _ (Frame-raise _) (Frame-pure tt))

  Frame-shared : (session : Session) (id : String) → Frame (shared session id)
  unfolding shared
  Frame-shared session id =
      Frame->>= (Frame-job_of id)
        (λ job. Frame-if (job.project == session.project) (Frame-pure job) (Frame-raise _))

  pub Frame-check_dependencies :
      (session : Session) (ds : List Dependency) → Frame (check_dependencies session ds)
  unfolding check_dependencies
  Frame-check_dependencies session [] = Frame-pure tt
  Frame-check_dependencies session (d ∷ ds) =
      Frame->>= (Frame-shared session d.upstream) (λ _. Frame-check_dependencies session ds)

  pub Frame-check_scene :
      (session : Session) (scene device : Option String) → Frame (check_scene session scene device)
  unfolding check_scene
  Frame-check_scene session none device = Frame-pure tt
  Frame-check_scene session (some id) device =
      Frame->>= (Frame-shared session id)
        (λ job. Frame-if (opt_eq job.spec.device device) (Frame-pure tt) (Frame-raise _))

  Keeps-admit_new :
      (id : String) (session : Session) (asked : Asked) (priority : ℕ) (spec : Spec)
      (known : Option String)
      → Keeps config (admit_new env config id session asked priority spec known)
  unfolding admit_new
  Keeps-admit_new id session asked priority spec (some known) =
      Keeps-Frame config (Frame-pure known)
  Keeps-admit_new id session asked priority spec none =
      Keeps->> config
        (Keeps->> config
          (Keeps->> config
            (Keeps->> config (Keeps-Frame config (Frame-check_capacity session))
              (Keeps-Frame config (Frame-check_dependencies session spec.dependencies)))
            (Keeps-Frame config (Frame-check_scene session spec.scene spec.device)))
          (Keeps-admit id session asked priority spec))
        (Keeps-Frame config (Frame-pure id))

  -- Taking a request into the queue keeps a sound queue sound, whether it is accepted or refused.
  pub Keeps-submit_prepared :
      (id : String) (session : Session) (asked : Asked) (priority : ℕ) (spec : Spec)
      → Keeps config (submit_prepared env config id session asked priority spec)
  unfolding submit_prepared
  Keeps-submit_prepared id session asked priority spec =
      Keeps->>= config (Keeps-Frame config (Frame-earlier session asked))
        (Keeps-admit_new id session asked priority spec)
