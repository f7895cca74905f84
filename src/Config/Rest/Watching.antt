-- ===== src/Config/Rest/Watching.antt =====
-- `Watch` of the REST storage, and the list it begins with.
use apiserver_runtime_exampl.Base.{
  ◌<◌, ◌≡◌, refl, false, Option, Text, arith, List, [], ◌∷◌, ◌++◌, map, length, length-map,
  get_elem?-append_self, done, blocked, ok,
}
use apiserver_runtime_exampl.Channel.{Heap, make_chan}
use apiserver_runtime_exampl.Channel.Burst.{send_all, send_all-overflows}
use apiserver_runtime_exampl.Watch.{Event}
use apiserver_runtime_exampl.Watch.Watchers
use apiserver_runtime_exampl.Watch.Watchers.{get_watch_context}
use apiserver_runtime_exampl.Api.Config.{Config}
use apiserver_runtime_exampl.Config.Keys.{Object}
use apiserver_runtime_exampl.Config.Rest.{Cfg, added_event, list, watch, watch_list}

sends-waits :
    (h : Heap (Event Object)) (evs : List (Event Object))
    → 10 < length evs
    → send_all (h ++ make_chan 10 ∷ []) (length h) evs ≡ blocked
sends-waits h evs big =
    send_all-overflows (h ++ make_chan 10 ∷ []) (length h) evs (make_chan 10)
      (get_elem?-append_self h (make_chan 10)) refl (omega arith) (omega arith)

module _ {D W E U : Type 0} where
  -- With a free watcher id and a list of more than ten configs, `Watch` waits for ever: the list goes
  -- to a channel of ten places that no client has yet.
  pub config_watch_waits :
      (r : Cfg D W) (ctx : Option Text) (items : List Config)
      → Watchers.is_exhausted r.watchers ≡ false
      → list {E = E} {U = U} r ctx ≡ done (ok items)
      → 10 < length items
      → watch {E = E} {U = U} r ctx ≡ blocked
  unfolding watch watch_list get_watch_context
  config_watch_waits r ctx items free listed big =
      let many : 10 < length (map added_event items) =
        omega (arith, length-map added_event items) in
      rw (free, listed, sends-waits r.watchers.chans (map added_event items) many)
