-- ===== src/JsonFile/Watching.antt =====
-- pkg/filepath/jsonfile_rest.go: the lists and the watches.
pub mod Replaced
pub mod Collection
use apiserver_runtime_exampl.Base.{
  ℕ, Bool, true, false, not, Option, none, some, List, [], ◌∷◌, ◌++◌, map, Text, codes,
  if◌then◌else◌, has_suffix, Outcome, done, ◌>>=◌, Result, ok, err, length, nat_eq, insert, erase,
}
use apiserver_runtime_exampl.Os.Paths.{base_name}
use apiserver_runtime_exampl.Os.Files.{Files, FsError, remove, walk}
use apiserver_runtime_exampl.Channel.{Heap, make_chan}
use apiserver_runtime_exampl.Channel.Burst.{send_all}
use apiserver_runtime_exampl.Watch.{Event, added}
use apiserver_runtime_exampl.JsonFile.{
  FilepathRest, JsonWatch, ReadError, RestError, not_a_list, failed_walking, object_dir_name, read,
}
use apiserver_runtime_exampl.JsonFile.Handlers.{Answer}

-- What the visitors of this file change: the disk, and the items of the list.
abbrev pub Seen {ℓ} : Type ℓ → Type ℓ
Seen O = Files × List O

module _ {ℓ} {O : Type ℓ} where
  visited : (Text → O → Seen O → Seen O) → Text → Result ReadError O → Seen O → Seen O × Bool
  visited visit path (err e) s = (s, false)
  visited visit path (ok obj) s = (visit path obj s, true)

  -- The walk goes on where the flag is set.
  go_on : (Seen O → Seen O × Bool) → Seen O × Bool → Seen O × Bool
  go_on rest (s, false) = (s, false)
  go_on rest (s, true) = rest s

  -- `appendItem`
  append_item : Text → O → Seen O → Seen O
  append_item path obj (disk, items) = (disk, items ++ obj ∷ [])

  -- The visitor of `DeleteCollection`, which does not look at the error of the removal.
  remove_item : Text → O → Seen O → Seen O
  remove_item path obj (disk, items) = ((remove disk path).0, items ++ obj ∷ [])

  abbrev added_events : List O → List (Event O)
  added_events items = map (λ obj. record { event_type = added; object = obj }) items

module _ {ℓ κ} {O : Type ℓ} {L : Type κ} where
  visit_file : FilepathRest O L → (Text → O → Seen O → Seen O) → Text → Seen O → Seen O × Bool
  unfolding visited
  visit_file f visit path s =
      if not (has_suffix (base_name path) (codes ".json"))
      then (s, true)
      else visited visit path (read f s.0 path) s

  unfoldable pub visit_files :
      FilepathRest O L → (Text → O → Seen O → Seen O) → List Text → Seen O → Seen O × Bool
  unfolding visit_file go_on
  visit_files f visit [] s = (s, true)
  visit_files f visit (path ∷ paths) s =
      go_on (visit_files f visit paths) (visit_file f visit path s)

  visit_walk :
      FilepathRest O L
      → (Text → O → Seen O → Seen O)
      → Result FsError (List Text)
      → Seen O
      → Seen O × Bool
  unfolding visit_files
  visit_walk f visit (err e) s = (s, false)
  visit_walk f visit (ok paths) s = visit_files f visit paths s

  -- `visitDir`; the flag says that it ended without an error.
  unfoldable pub visit_dir :
      FilepathRest O L → Text → (Text → O → Seen O → Seen O) → Seen O → Seen O × Bool
  unfolding visit_walk
  visit_dir f dirname visit s = visit_walk f visit (walk s.0 dirname) s

  -- What a walk of the object directory leaves.
  after_walk : FilepathRest O L → Text → Seen O × Bool → FilepathRest O L × Result RestError L
  after_walk f dirname ((disk, items), true) =
      (record f { disk = disk }, ok (f.meta.with_items f.new_list_func items))
  after_walk f dirname ((disk, items), false) =
      (record f { disk = disk }, err (failed_walking dirname))

  walk_items :
      FilepathRest O L
      → Text
      → (Text → O → Seen O → Seen O)
      → Result Text (List O)
      → FilepathRest O L × Result RestError L
  unfolding after_walk
  walk_items f dirname visit (err e) = (f, err (not_a_list e))
  walk_items f dirname visit (ok items) =
      after_walk f dirname (visit_dir f dirname visit (f.disk, items))

  -- `List`
  unfoldable pub list : FilepathRest O L → Option Text → FilepathRest O L × Result RestError L
  unfolding walk_items append_item
  list f ctx = walk_items f (object_dir_name f ctx) append_item (f.meta.items_ptr f.new_list_func)

  -- `DeleteCollection`; it looks neither at the validation nor at the options.
  unfoldable pub delete_collection :
      FilepathRest O L → Option Text → FilepathRest O L × Result RestError L
  unfolding walk_items remove_item
  delete_collection f ctx =
      walk_items f (object_dir_name f ctx) remove_item (f.meta.items_ptr f.new_list_func)

  -- The initial events, then the registration.
  watch_listed :
      FilepathRest O L → JsonWatch → FilepathRest O L × Result RestError L → Answer O L JsonWatch
  watch_listed f jw (f', err e) = done (f, err e)
  watch_listed f jw (f', ok l) = do
    chans ← send_all f.chans jw.ch (added_events (f.meta.items l))
    done (record f { chans = chans; watchers = insert jw.id jw f.watchers }, ok jw)

  -- `Watch`
  unfoldable pub watch : FilepathRest O L → Option Text → Answer O L JsonWatch
  unfolding watch_listed
  watch f ctx =
      watch_listed (record f { chans = f.chans ++ make_chan 10 ∷ [] })
        (record { id = length f.watchers; ch = length f.chans }) (list f ctx)

  -- `jsonWatch.Stop`, which leaves the channel open.
  unfoldable pub stop : FilepathRest O L → JsonWatch → FilepathRest O L
  stop f w = record f { watchers = erase w.id f.watchers }
