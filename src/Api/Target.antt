-- ===== src/Api/Target.antt =====
-- apis/inv/v1alpha1: targets, their connection profiles and their sync profiles
-- (target_types.go, targetconnprofile_types.go, targetsyncprofile_types.go, and the functions of
-- targetconnprofile_interfaces.go and targetsyncprofile_interfaces.go).
use apiserver_runtime_exampl.Base.{
  ℕ, Bool, true, false, Option, none, some, List, [], ◌∷◌, map, Text, codes, if◌then◌else◌, text_eq,
  ◌≟◌,
}
use apiserver_runtime_exampl.Api.Config.{ℤ, pos}

pub record Provider : Type 0 where
  pub name : Text
  pub vendor : Text
  pub version : Text

-- `TargetSpec`; the reference to parameters is not read by the program.
pub record TargetSpec : Type 0 where
  pub provider : Provider
  pub address : Option Text
  pub secret_name : Text
  pub tls_secret_name : Option Text
  pub connection_profile : Text
  pub sync_profile : Text

-- `Target`, without its type and its status.
pub record Target : Type 0 where
  pub namespace : Text
  pub name : Text
  pub spec : TargetSpec

pub record TargetConnectionProfileSpec : Type 0 where
  pub protocol : Text
  pub encoding : Text
  pub insecure : Option Bool
  pub skip_verify : Option Bool

-- `DefaultTargetConnectionProfile`: its spec.
unfoldable pub default_target_connection_profile : TargetConnectionProfileSpec
default_target_connection_profile = record {
  protocol = codes "gnmi";
  encoding = codes "ASCII";
  insecure = some false;
  skip_verify = some true;
}

pub record TargetSyncProfileSync : Type 0 where
  pub name : Text
  pub protocol : Text
  pub paths : List Text
  pub mode : Text
  pub encoding : Text
  pub interval : ℕ

pub record TargetSyncProfileSpec : Type 0 where
  pub validate : Option Bool
  pub buffer : Option ℤ
  pub workers : Option ℤ
  pub sync : List TargetSyncProfileSync

-- `DefaultTargetSyncProfile`: its spec.
unfoldable pub default_target_sync_profile : TargetSyncProfileSpec
default_target_sync_profile = record {
  validate = some true;
  buffer = none;
  workers = none;
  sync =
      record {
        name = codes "config";
        protocol = codes "gnmi";
        paths = codes "/" ∷ [];
        mode = codes "onChange";
        encoding = [];
        interval = 0;
      }
      ∷ [];
}

-- The values of `sdcpb.SyncMode` that are used.
pub data SyncMode : Type 0 where
  sm_on_change sm_sample sm_once : SyncMode

-- `getSyncMode`
unfoldable pub get_sync_mode : Text → SyncMode
get_sync_mode mode =
    if mode ≟ codes "onChange"
    then sm_on_change
    else if mode ≟ codes "sample"
    then sm_sample
    else if mode ≟ codes "once"
    then sm_once
    else sm_on_change

-- `getEncoding`
unfoldable pub get_encoding : Text → Text
get_encoding e = if e ≟ codes "config" then codes "45" else e

-- `sdcpb.GNMISync` and `sdcpb.Sync`
pub record GnmiSync : Type 0 where
  pub name : Text
  pub path : List Text
  pub mode : SyncMode
  pub encoding : Text
  pub interval : ℕ

pub record Sync : Type 0 where
  pub validate : Bool
  pub buffer : ℤ
  pub write_workers : ℤ
  pub gnmi : List GnmiSync

abbrev pub or_else : {A : Type 0} → A → Option A → A
or_else a none = a
or_else a (some b) = b

gnmi_sync : TargetSyncProfileSync → GnmiSync
unfolding get_sync_mode get_encoding
gnmi_sync c = record {
  name = c.name;
  path = c.paths;
  mode = get_sync_mode c.mode;
  encoding = get_encoding c.encoding;
  interval = c.interval;
}

-- `GetSyncProfile`
unfoldable pub get_sync_profile : TargetSyncProfileSpec → Sync
unfolding gnmi_sync
get_sync_profile p = record {
  validate = or_else false p.validate;
  buffer = or_else (pos 0) p.buffer;
  write_workers = or_else (pos 0) p.workers;
  gnmi = map gnmi_sync p.sync;
}
