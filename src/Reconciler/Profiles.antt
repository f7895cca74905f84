-- ===== src/Reconciler/Profiles.antt =====
-- pkg/reconcilers/target/watch_target_conn_profile.go and watch_target_sync_profile.go: a change of
-- a profile queues the targets that name it. The client's list and the work queue are parameters.
pub mod Queued
mod Tests
use apiserver_runtime_exampl.Base.{
  Bool, List, [], ◌∷◌, Text, if◌then◌else◌, text_eq, ◌≟◌, Result, ok, err,
}
use apiserver_runtime_exampl.Store.Key.{Key}
use apiserver_runtime_exampl.Api.Target.{Target}

-- The objects that a handler may be given, by namespace and name.
pub data Profile : Type 0 where
  connection_profile sync_profile : Key → Profile
  other_object : Profile

abbrev pub target_key : Target → Key
target_key t = record { namespace = t.namespace; name = t.name }

-- `list_targets` is the client's `List` with `InNamespace`; `add` is the queue's `Add`.
module _ {Q E : Type 0} (list_targets : Text → Result E (List Target)) (add : Q → Key → Q) where
  -- The loop over the targets; `profile_of` is the field of the spec that is compared.
  unfoldable pub requeue : (Target → Text) → Text → List Target → Q → Q
  requeue profile_of name [] q = q
  requeue profile_of name (t ∷ ts) q =
      requeue profile_of name ts (if profile_of t ≟ name then add q (target_key t) else q)

  -- An error of the list is only logged.
  requeue_listed : (Target → Text) → Text → Result E (List Target) → Q → Q
  unfolding requeue
  requeue_listed profile_of name (err e) q = q
  requeue_listed profile_of name (ok ts) q = requeue profile_of name ts q

  -- `targetConnProfileEventHandler.add`
  unfoldable pub conn_add : Profile → Q → Q
  unfolding requeue_listed
  conn_add (connection_profile cr) q =
      requeue_listed (λ t. t.spec.connection_profile) cr.name (list_targets cr.namespace) q
  conn_add (sync_profile cr) q = q
  conn_add other_object q = q

  -- `targetSyncProfileEventHandler.add`
  unfoldable pub sync_add : Profile → Q → Q
  unfolding requeue_listed
  sync_add (sync_profile cr) q =
      requeue_listed (λ t. t.spec.sync_profile) cr.name (list_targets cr.namespace) q
  sync_add (connection_profile cr) q = q
  sync_add other_object q = q

  -- The events of `targetConnProfileEventHandler`.
  unfoldable pub conn_create : Profile → Q → Q
  conn_create obj q = conn_add obj q

  unfoldable pub conn_update : Profile → Profile → Q → Q
  conn_update object_old object_new q = conn_add object_new (conn_add object_old q)

  unfoldable pub conn_delete : Profile → Q → Q
  conn_delete obj q = conn_add obj q

  unfoldable pub conn_generic : Profile → Q → Q
  conn_generic obj q = conn_add obj q

  -- The events of `targetSyncProfileEventHandler`.
  unfoldable pub sync_create : Profile → Q → Q
  sync_create obj q = sync_add obj q

  unfoldable pub sync_update : Profile → Profile → Q → Q
  sync_update object_old object_new q = sync_add object_new (sync_add object_old q)

  unfoldable pub sync_delete : Profile → Q → Q
  sync_delete obj q = sync_add obj q

  unfoldable pub sync_generic : Profile → Q → Q
  sync_generic obj q = sync_add obj q
