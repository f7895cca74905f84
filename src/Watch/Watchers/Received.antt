-- ===== src/Watch/Watchers/Received.antt =====
-- pkg/store/watch/watchers.go: what the registered watchers have received.
use apiserver_runtime_exampl.Base.{
  ℕ, ◌≡◌, sym, ap, ◌∙◌, some, List, [], ◌∷◌, ◌++◌, append-nil, done, lookup, nat_eq,
}
use apiserver_runtime_exampl.Channel.{pending}
use apiserver_runtime_exampl.Watch.{Event}
use apiserver_runtime_exampl.Watch.Watchers.{WatchCtx, Watchers, notify_watchers}
use apiserver_runtime_exampl.Watch.Watchers.Consistent.{IsConsistent}
use apiserver_runtime_exampl.Watch.Watchers.Notify.{
  notify_watchers-delivers, notify_watchers-IsConsistent,
}

module _ {ℓ} {T : Type ℓ} where
  -- The registered watchers are the same, and each has received `evs` behind what it had.
  pub record Received (r r' : Watchers T) (evs : List (Event T)) : Type ℓ where
    pub same : r'.watchers ≡ r.watchers
    pub got :
        (i : ℕ) (w : WatchCtx)
        → lookup i r.watchers ≡ some w
        → pending r'.chans w.result_ch ≡ pending r.chans w.result_ch ++ evs

  pub Received-none : (r r' : Watchers T) → r' ≡ r → Received r r' []
  Received-none r r' same = record {
    same = ap (λ x. x.watchers) same;
    got = λ i w found.
        ap (λ x. pending x.chans w.result_ch) same ∙ sym (append-nil (pending r.chans w.result_ch));
  }

  pub notify_watchers-Received :
      (r r' : Watchers T) (ev : Event T)
      → IsConsistent r
      → notify_watchers r ev ≡ done r'
      → IsConsistent r' × Received r r' (ev ∷ [])
  notify_watchers-Received r r' ev v sent =
      let (entries, _, got, _) = notify_watchers-delivers r v ev r' sent in
      (notify_watchers-IsConsistent r v ev r' sent, record { same = entries; got = got })
