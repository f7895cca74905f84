-- ===== src/Reconciler/Profiles/Tests.antt =====
-- A profile with one target that names it.
use apiserver_runtime_exampl.Base.{
  ◌≡◌, refl, ◌↔◌, ◌⊎◌, none, List, [], ◌∷◌, Text, codes, Result, ok, text_eq, ℕ_discrete,
  Text-discrete,
}
use apiserver_runtime_exampl.Store.Key.{Key}
use apiserver_runtime_exampl.Api.Target.{Target}
use apiserver_runtime_exampl.Reconciler.Profiles.{
  connection_profile, target_key, conn_update, conn_add, requeue,
}
use apiserver_runtime_exampl.Reconciler.Profiles.Queued.{IsUser, conn_update-Has}

abbrev device : Target
device = record {
  namespace = codes "ns";
  name = codes "dev";
  spec = record {
    provider = record { name = []; vendor = []; version = [] };
    address = none;
    secret_name = [];
    tls_secret_name = none;
    connection_profile = codes "c";
    sync_profile = codes "y";
  };
}

abbrev list_targets : Text → Result Text (List Target)
list_targets ns = ok (device ∷ [])

-- A queue is a list of keys, and a key that is added stands first.
abbrev add : List Key → Key → List Key
add q k = k ∷ q

abbrev HasKey : List Key → Key → Type 0
HasKey [] j = ⊥
HasKey (k ∷ q) j = (k ≡ j) ⊎ HasKey q j

add-HasKey : (q : List Key) (k j : Key) → HasKey (add q k) j ↔ ((k ≡ j) ⊎ HasKey q j)
add-HasKey q k j = (λ h. h, λ h. h)

abbrev profile : Key
profile = record { namespace = codes "ns"; name = codes "c" }

abbrev other_profile : Key
other_profile = record { namespace = codes "ns"; name = codes "d" }

queued :
    conn_update list_targets add (connection_profile profile) (connection_profile other_profile) []
    ≡ target_key device ∷ []
unfolding conn_update conn_add requeue text_eq Text-discrete ℕ_discrete
queued = refl

conn_update-Has_example :
    HasKey
      (conn_update list_targets add
        (connection_profile profile)
        (connection_profile other_profile)
        [])
      (target_key device)
    ↔ (IsUser list_targets (λ t. t.spec.connection_profile) other_profile (target_key device)
        ⊎ IsUser list_targets (λ t. t.spec.connection_profile) profile (target_key device)
        ⊎ HasKey [] (target_key device))
conn_update-Has_example =
    conn_update-Has list_targets add HasKey add-HasKey profile other_profile [] (target_key device)
