-- ===== src/Scheduler/Each.antt =====
-- A loop over the tasks, as they were when it began, that changes the row of each task by its id.
use android_workbench.Prelude.{
  String, false, List, [], ◌∷◌, ◌++◌, map, append_assoc, append-nil, All, ◌==◌, eq_iff, ◌≡◌, refl,
  sym, subst, ◌∙◌, ap, if◌then◌else◌, Bool-cases, inl, inr, false≢true,
}
use android_workbench.Scheduler.Model.{Job, State}
use android_workbench.Scheduler.Store.{Action, ok, update_first, each}
use android_workbench.Scheduler.Exclusion.{Distinct}

-- No row of the list has the id.
abbrev pub Unused : String → List Job → Type 0
Unused id done = All (λ k. (k.id == id) ≡ false) done

pub update_first-skip :
    (f : Job → Job) (j : Job) (js done : List Job)
    → Unused j.id done
    → update_first j.id f (done ++ j ∷ js) ≡ done ++ f j ∷ js
unfolding update_first
update_first-skip f j js [] u = rw ((eq_iff j.id j.id).1 refl) refl
update_first-skip f j js (k ∷ done) u =
    rw (u.0) (ap (λ r. k ∷ r) (update_first-skip f j js done u.1))

Unused-snoc :
    (id : String) (k : Job) (done : List Job)
    → Unused id done
    → (k.id == id) ≡ false
    → Unused id (done ++ k ∷ [])
Unused-snoc id k [] u e = (e, tt)
Unused-snoc id k (x ∷ done) u e = (u.0, Unused-snoc id k done u.1 e)

-- No row before a row of the list has its id.
abbrev Apart : List Job → List Job → Type 0
Apart done [] = Unit
Apart done (j ∷ js) = Unused j.id done × Apart (done ++ j ∷ []) js

-- What a round of the loop does, where no row before that of its task has its id.
pub record Changes (step : Job → Action (Unit {0})) (g : Job → Job) : Type 0 where
  pub keeps_id : (j : Job) → (g j).id ≡ j.id
  pub returns : (j : Job) (s : State) → (step j s).0 ≡ ok tt
  pub at :
      (j : Job) (js done : List Job) (s : State)
      → s.jobs ≡ done ++ j ∷ js
      → Unused j.id done
      → (step j s).1.jobs ≡ done ++ g j ∷ js

map-snoc :
    (f : Job → Job) (j : Job) (done : List Job) → map f (done ++ j ∷ []) ≡ map f done ++ f j ∷ []
map-snoc f j [] = refl
map-snoc f j (k ∷ done) = ap (λ r. f k ∷ r) (map-snoc f j done)

module _ (step : Job → Action (Unit {0})) (g : Job → Job) (c : Changes step g) where
  Unused-map : (id : String) (done : List Job) → Unused id done → Unused id (map g done)
  Unused-map id [] u = tt
  Unused-map id (k ∷ done) u = (rw (c.keeps_id k) (u.0), Unused-map id done u.1)

  each-from :
      (js done : List Job) (s : State)
      → s.jobs ≡ map g done ++ js
      → Apart done js
      → (each step js s).1.jobs ≡ map g (done ++ js)
  unfolding each
  each-from [] done s e a = e ∙ append-nil (map g done) ∙ ap (map g) (sym (append-nil done))
  each-from (j ∷ js) done s e a =
      let t = (step j s).1 in
      let round = c.at j js (map g done) s e (Unused-map j.id done a.0) in
      let snoc : t.jobs ≡ map g (done ++ j ∷ []) ++ js =
        round
        ∙ sym (append_assoc (map g done) (g j ∷ []) js)
        ∙ ap (λ r. r ++ js) (sym (map-snoc g j done)) in
      let rest = each-from js (done ++ j ∷ []) t snoc a.1 in
      rw (c.returns j s) (rest ∙ ap (map g) (append_assoc done (j ∷ []) js))

other_way : (a b : String) → (a == b) ≡ false → (b == a) ≡ false
other_way a b h = elim (Bool-cases (b == a)) [
  | inl e ↦ absurd (false≢true (sym h ∙ (eq_iff a b).1 (sym ((eq_iff b a).0 e))))
  | inr e ↦ e
]

Unused-snoc-All :
    (j : Job) (done js : List Job)
    → All (λ k. Unused k.id done) js
    → All (λ k. (k.id == j.id) ≡ false) js
    → All (λ k. Unused k.id (done ++ j ∷ [])) js
Unused-snoc-All j done [] u d = tt
Unused-snoc-All j done (k ∷ js) u d =
    (Unused-snoc k.id j done u.0 (other_way k.id j.id d.0), Unused-snoc-All j done js u.1 d.1)

Apart-of : (done js : List Job) → All (λ k. Unused k.id done) js → Distinct js → Apart done js
Apart-of done [] u d = tt
Apart-of done (j ∷ js) u d =
    (u.0, Apart-of (done ++ j ∷ []) js (Unused-snoc-All j done js u.1 d.0) d.1)

nothing_done : (js : List Job) → All (λ k. Unused k.id []) js
nothing_done [] = tt
nothing_done (j ∷ js) = (tt, nothing_done js)

-- If ids are unique, the loop changes every row as its round does.
pub each-map :
    (step : Job → Action (Unit {0})) (g : Job → Job) (s : State)
    → Changes step g
    → Distinct s.jobs
    → (each step s.jobs s).1.jobs ≡ map g s.jobs
each-map step g s c d =
    each-from step g c s.jobs [] s refl (Apart-of [] s.jobs (nothing_done s.jobs) d)

same_ids :
    (g : Job → Job) (i : String) (js : List Job)
    → ((j : Job) → (g j).id ≡ j.id)
    → All (λ k. (k.id == i) ≡ false) js
    → All (λ k. (k.id == i) ≡ false) (map g js)
same_ids g i [] h u = tt
same_ids g i (j ∷ js) h u = (rw (h j) (u.0), same_ids g i js h u.1)

-- A change of every row that keeps the ids keeps them unique.
pub Distinct-map :
    (g : Job → Job) (js : List Job)
    → ((j : Job) → (g j).id ≡ j.id)
    → Distinct js
    → Distinct (map g js)
Distinct-map g [] h d = tt
Distinct-map g (j ∷ js) h d = (rw (h j) (same_ids g j.id js h d.0), Distinct-map g js h d.1)

-- The change of the row with an id, as a change of every row.
abbrev pub at_id : String → (Job → Job) → Job → Job
at_id id f j = if j.id == id then f j else j

map-unused :
    (id : String) (f : Job → Job) (js : List Job)
    → All (λ k. (k.id == id) ≡ false) js
    → map (at_id id f) js ≡ js
map-unused id f [] u = refl
map-unused id f (j ∷ js) u = rw (u.0) (ap (λ r. j ∷ r) (map-unused id f js u.1))

-- If ids are unique, the change of the first row with an id is the change of every such row.
pub update_first-map :
    (id : String) (f : Job → Job) (js : List Job)
    → Distinct js
    → update_first id f js ≡ map (at_id id f) js
unfolding update_first
update_first-map id f [] d = refl
update_first-map id f (j ∷ js) d = elim (Bool-cases (j.id == id)) [
  | inl e ↦
      let unused =
        subst (λ (i : String). All (λ k. (k.id == i) ≡ false) js) ((eq_iff j.id id).0 e) d.0 in
      rw e (ap (λ r. f j ∷ r) (sym (map-unused id f js unused)))
  | inr e ↦ rw e (ap (λ r. j ∷ r) (update_first-map id f js d.1))
]
