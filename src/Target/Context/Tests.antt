-- ===== src/Target/Context/Tests.antt =====
-- Intents of small configs.
use apiserver_runtime_exampl.Base.{ℕ, suc, Option, none, some, List, [], Text, codes, text_eq}
use apiserver_runtime_exampl.Api.Config.{pos, Config, ConfigBlob}
use apiserver_runtime_exampl.Store.Key.{Key}
use apiserver_runtime_exampl.Target.Context.{Context, SetIntentRequest}

abbrev blob : Text → ConfigBlob
blob p = record { path = p; value = codes "1" }

abbrev config_of : List ConfigBlob → Config
config_of blobs = record {
  meta = record {
    api_version = codes "g/v1";
    kind = codes "Config";
    namespace = codes "default";
    name = codes "a";
    uid = [];
    labels = [];
  };
  spec = record {
    lifecycle = record { deletion_policy = codes "delete" };
    priority = pos 10;
    config = blobs;
  };
  status = [];
}

abbrev key : Key
key = record { namespace = codes "default"; name = codes "dev1" }

-- A client that counts its calls.
abbrev counting : ℕ → ℕ → SetIntentRequest → ℕ × Option Text
counting w c req = (suc w, none)

abbrev context : Context ℕ
context = record { data_store = some 0; client = some 0 }
