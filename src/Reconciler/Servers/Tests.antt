-- ===== src/Reconciler/Servers/Tests.antt =====
-- Data servers with and without targets, and the theorems about them.
use apiserver_runtime_exampl.Base.{
  ℕ, suc, ◌≡◌, refl, ◌≢◌, Bool, false, Option, none, some, List, [], ◌∷◌, length, arith, Text,
  codes, done, panicked, Result, ok, lookup, insert, nat_eq, text_eq, ℕ_discrete, Text-discrete,
}
use apiserver_runtime_exampl.Watch.Watchers.{new_watchers, notify_watchers, notify_all}
use apiserver_runtime_exampl.Watch.Watchers.Consistent.{new_watchers-IsConsistent}
use apiserver_runtime_exampl.Store.Key.{Key, key_eq, key_string, get_name_key}
use apiserver_runtime_exampl.Store.Memory
use apiserver_runtime_exampl.Store.Memory.{Mem, run_call}
use apiserver_runtime_exampl.Store.Memory.Refines.{view, IsStore}
use apiserver_runtime_exampl.Reconciler.Servers.{
  DsContext, connected, select_data_server_context, change_targets,
}
use apiserver_runtime_exampl.Reconciler.Servers.Selection.{select_crowded, select_empty}

-- Sets are lists of names.
abbrev server : List Text → DsContext ℕ (List Text)
server targets = record { config = 0; targets = targets; client = none }

abbrev ds_key : Key
ds_key = get_name_key (codes "ds")

abbrev servers : List Text → Mem (DsContext ℕ (List Text))
servers targets = record { db = (ds_key, server targets) ∷ []; watchers = new_watchers 32 }

servers-IsStore : (targets : List Text) → IsStore (servers targets)
unfolding lookup
servers-IsStore targets = record { unique = (refl, tt); consistent = new_watchers-IsConsistent 32 }

abbrev new_client : ℕ → Result Text ℕ
new_client c = ok c

abbrev start : ℕ → ℕ → ℕ × Option Text
start w c = (suc w, none)

crowded :
    (k : Key) (d : DsContext ℕ (List Text))
    → view (servers (codes "t" ∷ [])) k ≡ some d
    → length d.targets ≢ 0
unfolding lookup
crowded k d h = ground arith

select_crowded_example :
    select_data_server_context length new_client start 0 (servers (codes "t" ∷ [])) ≡ panicked
select_crowded_example =
    select_crowded length new_client start (servers (codes "t" ∷ [])) 0
      (servers-IsStore (codes "t" ∷ [])) crowded

select_empty_example :
    (j : Key) × (x : DsContext ℕ (List Text)) × (view (servers []) j ≡ some x)
    × (length x.targets ≡ 0)
    × (select_data_server_context length new_client start 0 (servers [])
        ≡ done (connected length new_client start 0 x x.client))
unfolding lookup get_name_key key_eq ℕ_discrete Text-discrete
select_empty_example =
    select_empty length new_client start (servers []) 0 (servers-IsStore []) ds_key (server []) refl
      refl

abbrev differ : DsContext ℕ (List Text) → DsContext ℕ (List Text) → Bool
differ a b = false

abbrev target : Key
target = record { namespace = codes "ns"; name = codes "dev" }

assigned :
    change_targets differ (λ s t. t ∷ s) (servers []) ds_key target
    ≡ done (servers (key_string target ∷ []))
unfolding change_targets lookup insert get_name_key key_eq ℕ_discrete Text-discrete run_call
    Memory.get new_watchers notify_watchers notify_all
assigned = refl
