-- ===== src/Store/File/Calls.antt =====
-- pkg/store/file/file.go: the operations of the store in files that change it.
pub mod Telling
pub mod Saved
pub mod Unsaved
pub mod Deleted
pub mod Meets
pub mod Refines
pub mod Returning
use apiserver_runtime_exampl.Base.{
  Bool, Option, none, some, List, [], ◌∷◌, map, if◌then◌else◌, Outcome, done, ◌>>=◌, Result, ok,
  err, Dict, insert,
}
use apiserver_runtime_exampl.Os.Files.{Files, remove}
use apiserver_runtime_exampl.Channel.Burst.{send_all}
use apiserver_runtime_exampl.Watch.{Event, added, modified, deleted}
use apiserver_runtime_exampl.Watch.IdAllocator.{IdError}
use apiserver_runtime_exampl.Watch.Watchers
use apiserver_runtime_exampl.Watch.Watchers.{WatchCtx, Watchers, notify_watchers, get_watch_context}
use apiserver_runtime_exampl.Store.Key.{Key, key_eq}
use apiserver_runtime_exampl.Store.Contract
use apiserver_runtime_exampl.Store.Contract.{Call}
use apiserver_runtime_exampl.Store.Memory.{event}
use apiserver_runtime_exampl.Store.File.{
  File, FileError, duplicate_entry, out_of_resources, cannot_add, write_file_of, delete_file, get,
  list,
}

module _ {ℓ κ} {O : Type ℓ} {T : Type κ} (as_type : O → Option T) (as_object : T → Option O) where
  pub notify : File O T → Event T → Outcome (File O T)
  notify r ev = do ws ← notify_watchers r.watchers ev; done (record r { watchers = ws })

  -- The private `update` and `delete`.
  pub write : File O T → Key → T → File O T × Option FileError
  write r key newd = write_file_of as_type as_object r key newd

  pub erase_file : File O T → Key → File O T × Option FileError
  unfolding delete_file
  erase_file r key = delete_file as_type as_object r key

  create_with :
      File O T → Key → T → Result FileError T → Outcome (File O T × Result FileError (Unit {0}))
  unfolding write notify
  create_with r key x (ok _) = done (r, err (duplicate_entry key))
  create_with r key x (err _) = do r' ← notify (write r key x).0 (event added x); done (r', ok tt)

  unfoldable pub create : File O T → Key → T → Outcome (File O T × Result FileError (Unit {0}))
  unfolding create_with
  create r key x = create_with r key x (get as_type as_object r key)

  update_with :
      (T → T → Bool)
      → File O T
      → Key
      → T
      → Result FileError T
      → Outcome (File O T × Result FileError (Unit {0}))
  unfolding write notify
  update_with deep_equal r key x (ok oldd) =
      if deep_equal oldd x
      then done ((write r key x).0, ok tt)
      else (do r' ← notify (write r key x).0 (event modified x); done (r', ok tt))
  update_with deep_equal r key x (err _) = do
    r' ← notify (write r key x).0 (event added x)
    done (r', ok tt)

  unfoldable pub update :
      (T → T → Bool) → File O T → Key → T → Outcome (File O T × Result FileError (Unit {0}))
  unfolding update_with
  update deep_equal r key x = update_with deep_equal r key x (get as_type as_object r key)

  delete_with :
      File O T → Key → Result FileError T → Outcome (File O T × Result FileError (Unit {0}))
  unfolding erase_file notify
  delete_with r key (err _) = done (r, ok tt)
  delete_with r key (ok obj) = do
    r' ← notify r (event deleted obj)
    done ((erase_file r' key).0, ok tt)

  unfoldable pub delete : File O T → Key → Outcome (File O T × Result FileError (Unit {0}))
  unfolding delete_with
  delete r key = delete_with r key (get as_type as_object r key)

  -- The calls of a `Storer` that change it.
  unfoldable pub run_call :
      (T → T → Bool) → File O T → Call T → Outcome (File O T × Result FileError (Unit {0}))
  run_call deep_equal r (Contract.create key x) = create r key x
  run_call deep_equal r (Contract.update key x) = update deep_equal r key x
  run_call deep_equal r (Contract.delete key) = delete r key

  -- The objects that `Watch` lists, and their events.
  collect : File O T → Dict Key T
  unfolding list
  collect r = list as_type as_object r (some (λ key x items. insert key x items)) []

  register : File O T → Watchers T × Result IdError WatchCtx → File O T × Result FileError WatchCtx
  register r (ws, ok w) = (record r { watchers = ws }, ok w)
  register r (ws, err e) = (record r { watchers = ws }, err (cannot_add e))

  open_watch : File O T → Watchers T × WatchCtx → Outcome (File O T × Result FileError WatchCtx)
  unfolding collect register
  open_watch r (ws, w) = do
    chans ← send_all ws.chans w.result_ch (map (λ (_, x). event added x) (collect r))
    done (register r (Watchers.add (record ws { chans = chans }) w))

  unfoldable pub watch : File O T → Outcome (File O T × Result FileError WatchCtx)
  unfolding open_watch
  watch r =
      if Watchers.is_exhausted r.watchers
      then done (r, err out_of_resources)
      else open_watch r (get_watch_context r.watchers)
