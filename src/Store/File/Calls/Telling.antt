-- ===== src/Store/File/Calls/Telling.antt =====
-- pkg/store/file: the watchers are told, and nothing else changes.
use apiserver_runtime_exampl.Base.{
  [], ◌∷◌, ◌≡◌, sym, Option, text_eq, done, >>=-eq-done, done-injective,
}
use apiserver_runtime_exampl.Watch.{Event}
use apiserver_runtime_exampl.Watch.Watchers.{Watchers, notify_watchers}
use apiserver_runtime_exampl.Watch.Watchers.Consistent.{IsConsistent}
use apiserver_runtime_exampl.Watch.Watchers.Received.{Received, notify_watchers-Received}
use apiserver_runtime_exampl.Store.File.{File}
use apiserver_runtime_exampl.Store.File.Calls.{notify}

module _ {ℓ κ} {O : Type ℓ} {T : Type κ} (as_type : O → Option T) (as_object : T → Option O) where
  -- Telling the watchers changes nothing else.
  pub notify-keeps :
      (r r' : File O T) (ev : Event T)
      → notify as_type as_object r ev ≡ done r'
      → (ws : Watchers T) × (r' ≡ record r { watchers = ws })
  unfolding notify
  notify-keeps r r' ev sent =
      let (ws, told, same) = >>=-eq-done (notify_watchers r.watchers ev) _ sent in
      (ws, sym (done-injective same))

  -- The registered watchers receive the event.
  pub notify-Received :
      (r r' : File O T) (ev : Event T)
      → IsConsistent r.watchers
      → notify as_type as_object r ev ≡ done r'
      → (ws : Watchers T) × (r' ≡ record r { watchers = ws })
        × IsConsistent ws
        × Received r.watchers ws (ev ∷ [])
  unfolding notify
  notify-Received r r' ev v sent =
      let (ws, told, same) = >>=-eq-done (notify_watchers r.watchers ev) _ sent in
      let (valid, received) = notify_watchers-Received r.watchers ws ev v told in
      (ws, sym (done-injective same), valid, received)
