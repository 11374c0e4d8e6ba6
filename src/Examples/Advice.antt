-- ===== src/Examples/Advice.antt =====
-- Candidates of workbench/policy.py under `choose`.
use android_workbench.Prelude.{
  Any, String, inl, inr, Option, none, some, true, List, [], ◌∷◌, ◌≡◌, refl, arith,
}
use android_workbench.Scheduler.Model.{Job}
use android_workbench.Scheduler.Choice.{best, top_priority, sort_by, insert_by}
use android_workbench.Scheduler.Choice.Oldest.{IsOldest}
use android_workbench.Policy.{
  Policy, ModelConfig, Advice, Entry, Chosen, fair_wait_limit, advised, choose, consult, shortlist,
}
use android_workbench.Policy.Laws.{choose_fair}
use android_workbench.Policy.Answers.{choose_answers}
use android_workbench.Policy.Budget.{WithinBudget, choose_budget}
use android_workbench.Examples.Data.{config, patient, urgent, waiting_job, plain_spec}

abbrev model : ModelConfig
model = record { configured = true; calls_per_hour = 2 }

abbrev policy : Policy
policy = record { calls = 10 ∷ []; slots = 1 }

-- A model that names the last candidate.
abbrev names_second : List Entry → Option Advice
names_second (x ∷ y ∷ js) = some (record { job_id = y.job_id; reason = 42 ∷ [] })
names_second js = none

abbrev is_a_test : Job → Option String
is_a_test j = some "a test"

abbrev rival : Job
rival = waiting_job "q3" 310 10 plain_spec

choose_fair_example :
    (j : Job) × (choose config model is_a_test 400 names_second policy urgent (patient ∷ [])
      ≡ (some (record { id = j.id; reason = fair_wait_limit }), policy))
    × IsOldest config 400 (urgent ∷ patient ∷ []) j
choose_fair_example =
    choose_fair config model is_a_test 400 names_second policy urgent (patient ∷ [])
      (inr (inl (omega arith)))

choose_budget_example :
    WithinBudget model policy
      (choose config model is_a_test 320 names_second policy urgent (rival ∷ [])).1
choose_budget_example =
    choose_budget is_a_test 320 model names_second policy config urgent (rival ∷ []) (omega arith)
      (("a test", refl), (("a test", refl), tt))

choose_answers_example :
    (c : Chosen) × ((choose config model is_a_test 320 names_second policy urgent (rival ∷ [])).0
      ≡ some c)
    × Any (λ k. k.id ≡ c.id) (urgent ∷ rival ∷ [])
choose_answers_example =
    choose_answers config model is_a_test 320 names_second policy urgent (rival ∷ []) (omega arith)
      (("a test", refl), (("a test", refl), tt))

advice_is_taken : choose config model is_a_test 320 names_second policy urgent (rival ∷ []) ≡ (
  some (record { id = "q3"; reason = advised (42 ∷ []) }),
  record { calls = 10 ∷ 320 ∷ []; slots = 1 },
)
unfolding choose consult shortlist best top_priority sort_by insert_by
advice_is_taken = refl

-- A candidate without a purpose would keep the place.
place_is_kept :
    (choose config model (λ j. none) 320 names_second policy urgent (rival ∷ [])).1.slots ≡ 0
unfolding choose consult shortlist best top_priority sort_by insert_by
place_is_kept = refl
