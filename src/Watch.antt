-- ===== src/Watch.antt =====
-- pkg/store/watch: events, the allocator of watcher ids, and the registry of watchers.
pub mod IdAllocator
pub mod Watchers
mod Tests
use apiserver_runtime_exampl.Base.{ℕ, Text, codes}

-- watch.go: `EventType` and `Event`.
pub data EventType : Type 0 where
  added modified deleted : EventType

pub record Event {ℓ} (T : Type ℓ) : Type ℓ where
  pub event_type : EventType
  pub object : T

-- `EventType.String`
event_type_string : EventType → Text
event_type_string added = codes "Added"
event_type_string modified = codes "Modified"
event_type_string deleted = codes "Deleted"
