-- ===== src/Api/Condition/Make.antt =====
-- apis/inv/v1alpha1/condition.go: the functions that make a condition.
use apiserver_runtime_exampl.Base.{Bool, true, false, [], Text}
use apiserver_runtime_exampl.Api.Condition.{
  Condition, ConditionType, ConditionReason, condition_type, condition_reason, condition_status,
  condition_type_synced, condition_type_ready, condition_type_wired, condition_type_ep_ready,
  condition_reason_ready, condition_reason_failed, condition_reason_unknown,
  condition_reason_not_ready, condition_reason_action, condition_reason_reconcile_success,
  condition_reason_reconcile_failure, condition_reason_wire_success, condition_reason_wire_failure,
  condition_reason_wire_unknown, condition_reason_wire_wiring,
}

-- `now` is what `metav1.Now()` returns.
module _ {Time : Type 0} (now : Time) where
  -- `metav1.Condition{…}`, with the fields that are always given or never.
  condition : ConditionType → Bool → ConditionReason → Text → Condition Time
  condition t s r m = record {
    type_of = condition_type t;
    status = condition_status s;
    observed_generation = 0;
    last_transition_time = now;
    reason = condition_reason r;
    message = m;
  }

  -- `Ready`
  unfoldable pub ready : Condition Time
  unfolding condition
  ready = condition condition_type_ready true condition_reason_ready []

  -- `Unknown`
  unfoldable pub unknown : Condition Time
  unfolding condition
  unknown = condition condition_type_ready false condition_reason_unknown []

  -- `Action`
  unfoldable pub action : Text → Condition Time
  unfolding condition
  action msg = condition condition_type_ready false condition_reason_action msg

  -- `NotReady`
  unfoldable pub not_ready : Text → Condition Time
  unfolding condition
  not_ready msg = condition condition_type_ready false condition_reason_not_ready msg

  -- `Failed`
  unfoldable pub failed : Text → Condition Time
  unfolding condition
  failed msg = condition condition_type_ready false condition_reason_failed msg

  -- `ReconcileSuccess`
  unfoldable pub reconcile_success : Condition Time
  unfolding condition
  reconcile_success = condition condition_type_synced true condition_reason_reconcile_success []

  -- `ReconcileError`
  unfoldable pub reconcile_error : Text → Condition Time
  unfolding condition
  reconcile_error err_text =
      condition condition_type_synced false condition_reason_reconcile_failure err_text

  -- `Wired`
  unfoldable pub wired : Condition Time
  unfolding condition
  wired = condition condition_type_wired true condition_reason_wire_success []

  -- `WiringFailed`
  unfoldable pub wiring_failed : Text → Condition Time
  unfolding condition
  wiring_failed msg = condition condition_type_wired false condition_reason_wire_failure msg

  -- `WiringUknown`
  unfoldable pub wiring_uknown : Condition Time
  unfolding condition
  wiring_uknown = condition condition_type_wired false condition_reason_wire_unknown []

  -- `Wiring`
  unfoldable pub wiring : Text → Condition Time
  unfolding condition
  wiring msg = condition condition_type_wired false condition_reason_wire_wiring msg

  -- `EPReady`
  unfoldable pub ep_ready : Condition Time
  unfolding condition
  ep_ready = condition condition_type_ep_ready true condition_reason_ready []

  -- `EPUnknown`
  unfoldable pub ep_unknown : Condition Time
  unfolding condition
  ep_unknown = condition condition_type_ep_ready false condition_reason_unknown []

  -- `EPAction`
  unfoldable pub ep_action : Text → Condition Time
  unfolding condition
  ep_action msg = condition condition_type_ep_ready false condition_reason_action msg

  -- `EPNotReady`
  unfoldable pub ep_not_ready : Text → Condition Time
  unfolding condition
  ep_not_ready msg = condition condition_type_ep_ready false condition_reason_not_ready msg

  -- `EPFailed`
  unfoldable pub ep_failed : Text → Condition Time
  unfolding condition
  ep_failed msg = condition condition_type_ep_ready false condition_reason_failed msg
