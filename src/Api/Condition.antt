-- ===== src/Api/Condition.antt =====
-- apis/inv/v1alpha1/condition.go: the conditions of a resource's status. (apis/config/v1alpha1 has
-- a copy of it.)
pub mod Setting
pub mod Make
mod Tests
use apiserver_runtime_exampl.Base.{
  ℕ, Bool, true, false, not, ◌&&◌, ◌||◌, List, [], ◌∷◌, ◌++◌, Text, codes, length, ◌==◌, text_lt,
  if◌then◌else◌, text_eq, ◌≟◌,
}

-- `ConditionType` and its constants.
pub data ConditionType : Type 0 where
  condition_type_synced condition_type_ready condition_type_wired condition_type_ep_ready :
      ConditionType

unfoldable pub condition_type : ConditionType → Text
condition_type condition_type_synced = codes "Synced"
condition_type condition_type_ready = codes "Ready"
condition_type condition_type_wired = codes "Wired"
condition_type condition_type_ep_ready = codes "EPReady"

-- `ConditionReason` and its constants.
pub data ConditionReason : Type 0 where
  condition_reason_ready condition_reason_failed condition_reason_unknown condition_reason_not_ready
        condition_reason_action condition_reason_reconcile_success
        condition_reason_reconcile_failure condition_reason_wire_success
        condition_reason_wire_failure condition_reason_wire_unknown condition_reason_wire_wiring :
      ConditionReason

unfoldable pub condition_reason : ConditionReason → Text
condition_reason condition_reason_ready = codes "Ready"
condition_reason condition_reason_failed = codes "Failed"
condition_reason condition_reason_unknown = codes "Unknown"
condition_reason condition_reason_not_ready = codes "NotReady"
condition_reason condition_reason_action = codes "Action"
condition_reason condition_reason_reconcile_success = codes "ReconcileSuccess"
condition_reason condition_reason_reconcile_failure = codes "ReconcileFailure"
condition_reason condition_reason_wire_success = codes "Success"
condition_reason condition_reason_wire_failure = codes "Failure"
condition_reason condition_reason_wire_unknown = codes "Unknown"
condition_reason condition_reason_wire_wiring = codes "Wiring"

-- `metav1.ConditionTrue` and `metav1.ConditionFalse`
abbrev pub condition_status : Bool → Text
condition_status true = codes "True"
condition_status false = codes "False"

-- `Condition`; times are a parameter.
pub record Condition (Time : Type 0) : Type 0 where
  pub type_of : Text
  pub status : Text
  pub observed_generation : ℕ
  pub last_transition_time : Time
  pub reason : Text
  pub message : Text

module _ {Time : Type 0} where
  -- `Condition.Equal`
  unfoldable pub equal : Condition Time → Condition Time → Bool
  equal c other =
      c.type_of ≟ other.type_of
      && c.status ≟ other.status
      && c.reason ≟ other.reason
      && c.message ≟ other.message

  -- `Condition.WithMessage`
  unfoldable pub with_message : Condition Time → Text → Condition Time
  with_message c msg = record c { message = msg }

  -- `GetCondition`; the time of the condition that it makes up is the zero time.
  unfoldable pub get_condition : Time → List (Condition Time) → Text → Condition Time
  get_condition zero_time [] t = record {
    type_of = t;
    status = condition_status false;
    observed_generation = 0;
    last_transition_time = zero_time;
    reason = [];
    message = [];
  }
  get_condition zero_time (c ∷ cs) t = if c.type_of ≟ t then c else get_condition zero_time cs t

  -- The loop of `SetConditions` over the existing conditions, for one new condition: the
  -- conditions and `exists` after it.
  unfoldable pub set_existing :
      Condition Time → List (Condition Time) → List (Condition Time) × Bool
  unfolding equal
  set_existing new [] = ([], false)
  set_existing new (existing ∷ cs) =
      let (cs', exists) = set_existing new cs in
      if not (existing.type_of ≟ new.type_of)
      then (existing ∷ cs', exists)
      else if equal existing new
      then (existing ∷ cs', true)
      else (new ∷ cs', true)

  -- One new condition is set; it is appended if none of its type exists.
  unfoldable pub set_condition : List (Condition Time) → Condition Time → List (Condition Time)
  unfolding set_existing
  set_condition cs new =
      let (cs', exists) = set_existing new cs in if exists then cs' else cs' ++ new ∷ []

  -- `SetConditions`
  unfoldable pub set_conditions :
      List (Condition Time) → List (Condition Time) → List (Condition Time)
  unfolding set_condition
  set_conditions cs [] = cs
  set_conditions cs (new ∷ news) = set_conditions (set_condition cs new) news

  -- `NewConditionedStatus`
  unfoldable pub new_conditioned_status : List (Condition Time) → List (Condition Time)
  unfolding set_conditions
  new_conditioned_status cs = set_conditions [] cs

  -- `sort.Slice` by the types of the conditions.
  insert_condition : Condition Time → List (Condition Time) → List (Condition Time)
  insert_condition c [] = c ∷ []
  insert_condition c (d ∷ cs) =
      if text_lt c.type_of d.type_of then c ∷ d ∷ cs else d ∷ insert_condition c cs

  sort_conditions : List (Condition Time) → List (Condition Time)
  unfolding insert_condition
  sort_conditions [] = []
  sort_conditions (c ∷ cs) = insert_condition c (sort_conditions cs)

  -- The last loop of `ConditionedStatus.Equal`.
  all_equal : List (Condition Time) → List (Condition Time) → Bool
  unfolding equal
  all_equal [] oc = true
  all_equal (c ∷ sc) [] = true
  all_equal (c ∷ sc) (d ∷ oc) = if not (equal c d) then false else all_equal sc oc

  -- `ConditionedStatus.Equal`, of two statuses that are there.
  unfoldable pub equal_conditions : List (Condition Time) → List (Condition Time) → Bool
  unfolding sort_conditions all_equal
  equal_conditions r other =
      if not (length other == length r)
      then false
      else all_equal (sort_conditions r) (sort_conditions other)
