-- ===== src/Policy.antt =====
-- workbench/policy.py: `Policy.choose` (28-116). The model is asked for an order among tasks that
-- may start; its answer is a parameter, `ask`, and `none` stands for every way it can fail. The purpose of
-- a task, a text of its spec that nothing else here reads, is another.
pub mod Laws
pub mod Budget
pub mod Answers
use android_workbench.Prelude.{
  ℕ, ◌+◌, ◌-◌, ℤ, pos, negsuc, String, Option, none, some, Bool, true, false, not, ◌&&◌, ◌||◌, List,
  [], ◌∷◌, ◌++◌, any, keep, take, length, leb, ltb, eqb, ◌==◌, if◌then◌else◌,
}
use android_workbench.Scheduler.Model.{Job, Config}
use android_workbench.Scheduler.Choice.{best, older, top_priority, sort_by}

-- The `llm` part of the configuration, as far as it decides whether a call is made.
pub record ModelConfig : Type 0 where
  pub configured : Bool
  pub calls_per_hour : ℕ

-- The times of the recent calls, and the free places of the semaphore.
pub record Policy : Type 0 where
  pub calls : List ℕ
  pub slots : ℕ

-- A well-formed answer of the model.
pub record Advice : Type 0 where
  pub job_id : String
  pub reason : List ℕ

pub data Reason : Type 0 where
  fair_wait_limit only_eligible_candidate budget_exhausted concurrency_exhausted : Reason
  model_unavailable_or_invalid : Reason
  advised : List ℕ → Reason

pub record Chosen : Type 0 where
  pub id : String
  pub reason : Reason

abbrev pub has_waited : Config → ℕ → Job → Bool
has_waited config now j = leb (j.created + config.fair_after) now

abbrev pub hour : ℕ
hour = 36000

-- The candidates that the model sees: the highest priority, the oldest first, a limited number.
unfoldable pub shortlist : Config → Job → List Job → List Job
shortlist config x xs =
    let top = top_priority x xs in
    take config.candidate_limit (sort_by older (keep (λ (j : Job). eqb j.priority top) (x ∷ xs)))

abbrev pub is_candidate : List Job → String → Bool
is_candidate js id = any (λ (j : Job). j.id == id) js

-- The answer counts only if it names a candidate.
abbrev checked : String → List Job → Option Advice → Chosen
checked fallback js none = record { id = fallback; reason = model_unavailable_or_invalid }
checked fallback js (some a) =
    if is_candidate js a.job_id
    then record { id = a.job_id; reason = advised (take 600 a.reason) }
    else record { id = fallback; reason = model_unavailable_or_invalid }

abbrev recent : ℕ → List ℕ → List ℕ
recent now calls = keep (λ t. ltb now (t + hour)) calls

-- `slots.acquire(blocking=False)`
abbrev pub acquire : Policy → Option Policy
acquire p = if eqb p.slots 0 then none else some (record p { slots = p.slots - 1 })

-- `slots.release()`
abbrev pub release : Policy → Policy
release p = record p { slots = p.slots + 1 }

-- What the model is told of a candidate; the wait is negative if the clock was set back.
pub record Entry : Type 0 where
  pub job_id : String
  pub revision : ℕ
  pub purpose : String
  pub app : Option String
  pub estimate : ℕ
  pub wait : ℤ
  pub operation : String

abbrev waited_for : ℕ → ℕ → ℤ
waited_for now created = if leb created now then pos (now - created) else negsuc (created - now - 1)

abbrev pub entry_of : ℕ → Job → String → Entry
entry_of now j purpose = record {
  job_id = j.id;
  revision = j.revision;
  purpose = purpose;
  app = j.spec.app;
  estimate = j.spec.estimate;
  wait = waited_for now j.created;
  operation = j.spec.operation;
}

abbrev add_entry : ℕ → Job → Option String → Option (List Entry) → Option (List Entry)
add_entry now j none rest = none
add_entry now j (some purpose) none = none
add_entry now j (some purpose) (some entries) = some (entry_of now j purpose ∷ entries)

-- `payload["candidates"]`. The purpose of a task is the only key read here that a row of
-- Scheduler.Model leaves out; `none` is the KeyError of a task without one.
abbrev pub payload : (Job → Option String) → ℕ → List Job → Option (List Entry)
payload purpose now [] = some []
payload purpose now (j ∷ js) = add_entry now j (purpose j) (payload purpose now js)

-- What follows the call lock. The payload is built between `acquire` and `try`: the place is given
-- back once the model was asked, and it is not if the payload cannot be built.
abbrev invoke :
    (List Entry → Option Advice)
    → Policy
    → String
    → List Job
    → Option (List Entry)
    → Option Chosen × Policy
invoke ask p fallback js none = (none, p)
invoke ask p fallback js (some entries) = (some (checked fallback js (ask entries)), release p)

abbrev with_place :
    (Job → Option String)
    → ℕ
    → (List Entry → Option Advice)
    → Policy
    → Option Policy
    → String
    → List Job
    → Option Chosen × Policy
with_place purpose now ask p none fallback js =
    (some (record { id = fallback; reason = concurrency_exhausted }), p)
with_place purpose now ask p (some q) fallback js =
    invoke ask (record q { calls = q.calls ++ now ∷ [] }) fallback js (payload purpose now js)

-- From the call lock on.
unfoldable pub consult :
    ModelConfig
    → (Job → Option String)
    → ℕ
    → (List Entry → Option Advice)
    → Policy
    → String
    → List Job
    → Option Chosen × Policy
consult model purpose now ask p fallback js =
    let calls = recent now p.calls in
    let p' = record p { calls = calls } in
    if not model.configured || leb model.calls_per_hour (length calls)
    then (some (record { id = fallback; reason = budget_exhausted }), p')
    else with_place purpose now ask p' (acquire p') fallback js

abbrev among :
    ModelConfig
    → (Job → Option String)
    → ℕ
    → (List Entry → Option Advice)
    → Policy
    → List Job
    → Option Chosen × Policy
among model purpose now ask p [] = (none, p)
among model purpose now ask p (x ∷ []) =
    (some (record { id = x.id; reason = only_eligible_candidate }), p)
among model purpose now ask p (x ∷ y ∷ js) = consult model purpose now ask p x.id (x ∷ y ∷ js)

abbrev fair_or : List Job → Policy → Option Chosen × Policy → Option Chosen × Policy
fair_or [] p rest = rest
fair_or (x ∷ xs) p rest = (some (record { id = (best older x xs).id; reason = fair_wait_limit }), p)

-- `choose` on the candidates `x :: xs`; `none` is the IndexError of an empty short list, or the
-- KeyError of a payload.
unfoldable pub choose :
    Config
    → ModelConfig
    → (Job → Option String)
    → ℕ
    → (List Entry → Option Advice)
    → Policy
    → Job
    → List Job
    → Option Chosen × Policy
choose config model purpose now ask p x xs =
    fair_or (keep (has_waited config now) (x ∷ xs)) p
      (among model purpose now ask p (shortlist config x xs))
