-- ===== src/Config/TargetWatcher.antt =====
-- pkg/config/watcher.go: `targetWatcher.watch`, as the steps of a goroutine beside the other callers
-- of the target store. What it does with an event is to log it.
pub mod Reading
mod Tests
use apiserver_runtime_exampl.Base.{
  Bool, true, List, [], ◌∷◌, ◌≡◌, some, done, Result, ok, err, get_elem?, set,
}
use apiserver_runtime_exampl.Channel.{Chan}
use apiserver_runtime_exampl.Watch.{Event}
use apiserver_runtime_exampl.Watch.Watchers
use apiserver_runtime_exampl.Watch.Watchers.{WatchCtx, Watchers}
use apiserver_runtime_exampl.Store.Contract.{StoreError, Call}
use apiserver_runtime_exampl.Store.Memory
use apiserver_runtime_exampl.Store.Memory.{Mem, run_call}

-- Where the goroutine stands: at the label, in the sleep, in the select, or returned.
pub data Phase : Type 0 where
  opening sleeping stopped : Phase
  reading : WatchCtx → Phase

pub record World {ℓ} (T : Type ℓ) : Type ℓ where
  pub store : Mem T
  pub phase : Phase

abbrev pub world {ℓ} : {T : Type ℓ} → Mem T → Phase → World T
world r p = record { store = r; phase = p }

-- A channel without its first event.
abbrev pub taken {ℓ} : {T : Type ℓ} → Mem T → WatchCtx → Chan (Event T) → List (Event T) → Mem T
taken r w c es = record r {
  watchers = record r.watchers {
    chans = set r.watchers.chans w.result_ch (record c { buffer = es });
  };
}

pub data Step {ℓ} {T : Type ℓ} (deep_equal : T → T → Bool) : World T → World T → Type ℓ where
  -- `r.targetStore.Watch`, and the sleep after its error.
  started :
      (r r' : Mem T) (w : WatchCtx)
      → Memory.watch r ≡ done (r', ok w)
      → Step deep_equal (world r opening) (world r' (reading w))
  refused :
      (r r' : Mem T) (e : StoreError)
      → Memory.watch r ≡ done (r', err e)
      → Step deep_equal (world r opening) (world r' sleeping)
  woken : (r : Mem T) → Step deep_equal (world r sleeping) (world r opening)
  -- The two cases of the receive, and `ctx.Done()`.
  received :
      (r : Mem T) (w : WatchCtx) (c : Chan (Event T)) (e : Event T) (es : List (Event T))
      → get_elem? r.watchers.chans w.result_ch ≡ some c
      → c.buffer ≡ e ∷ es
      → Step deep_equal (world r (reading w)) (world (taken r w c es) (reading w))
  closed :
      (r : Mem T) (w : WatchCtx) (c : Chan (Event T))
      → get_elem? r.watchers.chans w.result_ch ≡ some c
      → c.buffer ≡ []
      → c.closed ≡ true
      → Step deep_equal (world r (reading w)) (world r opening)
  cancelled :
      (r : Mem T) (w : WatchCtx) (ws : Watchers T)
      → Watchers.stop r.watchers w ≡ done ws
      → Step deep_equal (world r (reading w)) (world (record r { watchers = ws }) stopped)
  -- A create, an update or a delete by somebody else.
  changed :
      (r r' : Mem T) (p : Phase) (call : Call T) (res : Result StoreError (Unit {0}))
      → run_call deep_equal r call ≡ done (r', res)
      → Step deep_equal (world r p) (world r' p)
