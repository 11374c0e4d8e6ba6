-- ===== src/Scheduler/Store.antt =====
-- workbench/store.py: the operations on the tables, and the actions of the service over them. An
-- action returns a value or an exception, and the tables as they are left.
use android_workbench.Prelude.{
  String, Option, none, some, Bool, false, List, [], ◌∷◌, ◌++◌, first, ◌==◌, if◌then◌else◌,
}
use android_workbench.Scheduler.Model.{Job, Health, Event, State, Env, Process}

pub data Result {ℓ} (A : Type ℓ) : Type ℓ where
  ok : A → Result A
  err : String → Result A

abbrev pub Action : Type 0 → Type 0
Action A = State → Result A × State

abbrev pub pure : {A : Type 0} → A → Action A
pure a s = (ok a, s)

abbrev pub raise : {A : Type 0} → String → Action A
raise e s = (err e, s)

abbrev pub and_then : {A B : Type 0} → Result A × State → (A → Action B) → Result B × State
and_then (ok a, s) f = f a s
and_then (err e, s) f = (err e, s)

infixl 5 ◌>>=◌ ◌>>◌
abbrev pub ◌>>=◌ : {A B : Type 0} → Action A → (A → Action B) → Action B
◌>>=◌ m f s = and_then (m s) f

abbrev pub ◌>>◌ : {B : Type 0} → Action (Unit {0}) → Action B → Action B
m >> k = m >>= λ _. k

abbrev pub gets : {A : Type 0} → (State → A) → Action A
gets f s = (ok (f s), s)

abbrev pub modify : (State → State) → Action (Unit {0})
modify f s = (ok tt, f s)

-- `for x in xs: …`
unfoldable pub each : {A : Type 0} → (A → Action (Unit {0})) → List A → Action (Unit {0})
each f [] = pure tt
each f (x ∷ xs) = f x >> each f xs

-- BEGIN IMMEDIATE … COMMIT, with the ROLLBACK of the handler on an exception.
abbrev pub commit_or_rollback {ℓ} : {A : Type ℓ} → State → Result A × State → Result A × State
commit_or_rollback old (ok a, s) = (ok a, s)
commit_or_rollback old (err e, s) = (err e, old)

unfoldable pub transaction : {A : Type 0} → Action A → Action A
transaction m s = commit_or_rollback s (m s)

abbrev pub found : Option Job → Action Job
found none = raise "Unknown job"
found (some j) = pure j

unfoldable pub find_job : String → List Job → Option Job
find_job id js = first (λ j. j.id == id) js

-- `Store.job`
unfoldable pub job_of : String → Action Job
job_of id s = found (find_job id s.jobs) s

-- The row with the key is changed; `id` is the table's primary key.
unfoldable pub update_first : String → (Job → Job) → List Job → List Job
update_first id f [] = []
update_first id f (j ∷ js) = if j.id == id then f j ∷ js else j ∷ update_first id f js

-- `Store.update`, with the assignments as a function on the row.
unfoldable pub update : Env → String → (Job → Job) → Action (Unit {0})
update env id f =
    let change = λ (j : Job). record (f j) { updated = env.now } in
    modify (λ s. record s { jobs = update_first id change s.jobs })

-- `Store.event`
unfoldable pub event : Env → String → String → List (String × String) → Action (Unit {0})
event env id kind detail =
    let e : Event = record { job = id; kind = kind; time = env.now; detail = detail } in
    modify (λ s. record s { events = s.events ++ e ∷ [] })

unfoldable pub upsert : Health → List Health → List Health
upsert h [] = h ∷ []
upsert h (r ∷ rs) = if r.key == h.key then h ∷ rs else r ∷ upsert h rs

-- `Store.health`
unfoldable pub health : Health → Action (Unit {0})
health h = modify (λ s. record s { resources = upsert h s.resources })

-- `same_process`: false where there is no identity.
unfoldable pub same_process : Env → Option Process → Bool
same_process env none = false
same_process env (some p) = env.live p
