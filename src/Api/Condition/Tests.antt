-- ===== src/Api/Condition/Tests.antt =====
-- Runs of the conditions, and the theorems about them at these runs.
use apiserver_runtime_exampl.Base.{
  ℕ, ◌≡◌, refl, true, List, [], ◌∷◌, arith, codes, text_eq, ℕ_discrete, Text-discrete,
}
use apiserver_runtime_exampl.Api.Condition.{
  Condition, set_conditions, condition_type, condition_reason, equal_conditions,
}
use apiserver_runtime_exampl.Api.Condition.Make.{ready, failed, reconcile_success, wired}
use apiserver_runtime_exampl.Api.Condition.Setting.{HasUniqueTypes, set_conditions-HasUniqueTypes}

-- Times are numbers.
abbrev up : Condition ℕ
up = ready 2

abbrev conditions : List (Condition ℕ)
conditions = failed 1 (codes "down") ∷ reconcile_success 1 ∷ []

conditions-HasUniqueTypes : HasUniqueTypes conditions
unfolding failed reconcile_success condition_type
conditions-HasUniqueTypes t = ground arith

set_conditions-HasUniqueTypes_example :
    HasUniqueTypes (set_conditions conditions (ready 2 ∷ wired 3 ∷ []))
set_conditions-HasUniqueTypes_example =
    set_conditions-HasUniqueTypes conditions (ready 2 ∷ wired 3 ∷ []) conditions-HasUniqueTypes

replaced :
    set_conditions conditions (ready 2 ∷ wired 3 ∷ [])
    ≡ ready 2 ∷ reconcile_success 1 ∷ wired 3 ∷ []
unfolding set_conditions failed ready reconcile_success wired condition_type condition_reason
    text_eq ℕ_discrete Text-discrete
replaced = refl

any_order : equal_conditions (up ∷ wired 3 ∷ []) (wired 4 ∷ ready 5 ∷ []) ≡ true
unfolding equal_conditions ready wired condition_type condition_reason text_eq ℕ_discrete
    Text-discrete
any_order = refl
