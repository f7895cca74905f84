-- ===== src/Reconciler/Servers.antt =====
-- pkg/reconcilers/target/reconciler.go: `selectDataServerContext`, `addTargetToDataServer` and
-- `deleteTargetFromDataServer`. Sets of names are k8s.io's `sets.Set`, parameters here.
pub mod Selection
pub mod Assignment
mod Tests
use apiserver_runtime_exampl.Base.{
  ℕ, Bool, true, false, ◌||◌, Option, none, some, Text, ◌==◌, ltb, if◌then◌else◌, Outcome, done,
  panicked, ◌>>=◌, Result, ok, err,
}
use apiserver_runtime_exampl.Store.Key.{Key, key_string}
use apiserver_runtime_exampl.Store.Contract
use apiserver_runtime_exampl.Store.Contract.{StoreError}
use apiserver_runtime_exampl.Store.Memory
use apiserver_runtime_exampl.Store.Memory.{Mem, run_call}

-- `dsctx.Context`: the configuration of a data server, its targets, and its client, which may be
-- nil; a client is its handle.
pub record DsContext (C S : Type 0) : Type 0 where
  pub config : C
  pub targets : S
  pub client : Option ℕ

-- `dsctx.Targets.Len() < minTargets`, where no minimum stands for -1.
fewer : ℕ → Option ℕ → Bool
fewer n none = false
fewer n (some m) = ltb n m

module _ {C S : Type 0} (size : S → ℕ) where
  -- The visitor: the selected data server and `minTargets`.
  visit_server :
      DsContext C S → Option (DsContext C S) × Option ℕ → Option (DsContext C S) × Option ℕ
  unfolding fewer
  visit_server d (selected, min_targets) =
      if size d.targets == 0 || fewer (size d.targets) min_targets
      then (some d, some (size d.targets))
      else (selected, min_targets)

  -- The data server that the list leaves selected.
  unfoldable pub selected_server : Mem (DsContext C S) → Option (DsContext C S)
  unfolding visit_server
  selected_server r = (Memory.list r (some (λ k d s. visit_server d s)) (none, none)).0

  -- `dsclient.New` and `Client.Start`, in the state `W` of the connections.
  module _ {W E : Type 0} (new_client : C → Result E ℕ) (start : W → ℕ → W × Option E) where
    started : W × Option E → DsContext C S → ℕ → W × Result E (DsContext C S)
    started (w, some e) d c = (w, err e)
    started (w, none) d c = (w, ok (record d { client = some c }))

    connect : W → DsContext C S → Result E ℕ → W × Result E (DsContext C S)
    unfolding started
    connect w d (err e) = (w, err e)
    connect w d (ok c) = started (start w c) d c

    pub connected : W → DsContext C S → Option ℕ → W × Result E (DsContext C S)
    unfolding connect
    connected w d (some c) = (w, ok d)
    connected w d none = connect w d (new_client d.config)

    -- With no data server selected, `selectedDSctx.Client` is read through a nil pointer.
    select_with : W → Option (DsContext C S) → Outcome (W × Result E (DsContext C S))
    unfolding connected
    select_with w none = panicked
    select_with w (some d) = done (connected w d d.client)

    -- `selectDataServerContext`
    unfoldable pub select_data_server_context :
        W → Mem (DsContext C S) → Outcome (W × Result E (DsContext C S))
    unfolding selected_server select_with
    select_data_server_context w r = select_with w (selected_server r)

-- A change of a data server's set of targets; the errors of the store are only logged.
module _ {C S : Type 0} (deep_equal : DsContext C S → DsContext C S → Bool)
    (change : S → Text → S) where
  change_found :
      Mem (DsContext C S)
      → Key
      → Key
      → Result StoreError (DsContext C S)
      → Outcome (Mem (DsContext C S))
  change_found r ds_key target_key (err e) = done r
  change_found r ds_key target_key (ok d) = do
    answer ←
        run_call deep_equal r
          (Contract.update ds_key (record d { targets = change d.targets (key_string target_key) }))
    done answer.0

  -- `addTargetToDataServer`, where `change` is `Insert`, and `deleteTargetFromDataServer`, where it
  -- is `Delete`.
  unfoldable pub change_targets : Mem (DsContext C S) → Key → Key → Outcome (Mem (DsContext C S))
  unfolding change_found
  change_targets r ds_key target_key = change_found r ds_key target_key (Memory.get r ds_key)
