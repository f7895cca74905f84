-- ===== src/Watch/Watchers/Notify.antt =====
-- `NotifyWatchers` on a consistent registry.
use apiserver_runtime_exampl.Base.{
  ℕ, ◌≡◌, sym, subst, ap, ◌∙◌, ◌≢◌, some, [], ◌∷◌, ◌++◌, append-nil, done, blocked, panicked,
  >>=-eq-done, done-injective, Outcome-cases, inl, inr, All-lookup, lookup, nat_eq,
}
use apiserver_runtime_exampl.Channel.{HasRoom, pending}
use apiserver_runtime_exampl.Watch.{Event}
use apiserver_runtime_exampl.Watch.Watchers.{WatchCtx, Watchers, notify_all, notify_watchers}
use apiserver_runtime_exampl.Watch.Watchers.Consistent.{IsConsistent}
use apiserver_runtime_exampl.Watch.Watchers.Delivery.{
  AllOpen, IsFull, notify_all-IsOpen, notify_all-ne-panicked, pending-notify_all, copies-one,
  copies-none, notify_all-waits, notify_all-returns,
}

-- The registered watchers all have room for one more event.
abbrev pub HasSpace {ℓ} : {T : Type ℓ} → Watchers T → Type ℓ
HasSpace ws = (i : ℕ) (w : WatchCtx) → lookup i ws.watchers ≡ some w → HasRoom ws.chans w.result_ch

module _ {ℓ} {T : Type ℓ} (r : Watchers T) (v : IsConsistent r) (ev : Event T) where
  all_open : AllOpen r.watchers r.chans
  all_open = All-lookup _ r.watchers v.unique v.alive

  -- In a consistent registry a notification does not panic: it never meets a closed channel.
  pub notify_watchers-ne-panicked : notify_watchers r ev ≢ panicked
  unfolding notify_watchers
  notify_watchers-ne-panicked bad = elim (Outcome-cases (notify_all r.watchers ev r.chans)) [
    | inl (h, sent) ↦ cc
    | inr (inl waits) ↦ cc
    | inr (inr panics) ↦ notify_all-ne-panicked r.watchers ev r.chans all_open panics
  ]

  pub notify_watchers-delivers :
      (r' : Watchers T)
      → notify_watchers r ev ≡ done r'
      → (r'.watchers ≡ r.watchers)
        × (r'.id_allocator ≡ r.id_allocator)
        × ((i : ℕ) (w : WatchCtx)
            → lookup i r.watchers ≡ some w
            → pending r'.chans w.result_ch ≡ pending r.chans w.result_ch ++ ev ∷ [])
        × ((j : ℕ)
            → ((i : ℕ) (w : WatchCtx) → lookup i r.watchers ≡ some w → w.result_ch ≢ j)
            → pending r'.chans j ≡ pending r.chans j)
  unfolding notify_watchers
  notify_watchers-delivers r' sent =
      let (h, all, same) = >>=-eq-done (notify_all r.watchers ev r.chans) _ sent in
      let after = done-injective same in
      let to = λ (j : ℕ). pending-notify_all r.watchers ev r.chans h j all in
      (
        ap (λ x. x.watchers) (sym after),
        ap (λ x. x.id_allocator) (sym after),
        λ i w found.
            ap (λ x. pending x.chans w.result_ch) (sym after)
            ∙ to w.result_ch
            ∙ ap (λ x. pending r.chans w.result_ch ++ x)
                (copies-one r.watchers i w ev v.unique found
                  λ k u there shared. v.apart k i u w there found shared),
        λ j other.
            ap (λ x. pending x.chans j) (sym after)
            ∙ to j
            ∙ ap (λ x. pending r.chans j ++ x)
                (copies-none r.watchers j ev (All-lookup _ r.watchers v.unique other))
            ∙ append-nil (pending r.chans j),
      )

  -- It keeps the registry consistent.
  pub notify_watchers-IsConsistent :
      (r' : Watchers T) → notify_watchers r ev ≡ done r' → IsConsistent r'
  unfolding notify_watchers
  notify_watchers-IsConsistent r' sent =
      let (h, all, same) = >>=-eq-done (notify_all r.watchers ev r.chans) _ sent in
      subst IsConsistent (done-injective same) (record {
        ids = v.ids;
        registered = v.registered;
        unique = v.unique;
        own = v.own;
        apart = v.apart;
        alive = λ i w found.
            notify_all-IsOpen r.watchers ev r.chans h w.result_ch all (v.alive i w found);
      })

  -- In a consistent registry, one full channel of a registered watcher makes every notification
  -- wait.
  pub notify_watchers-waits :
      (i : ℕ) (w : WatchCtx)
      → lookup i r.watchers ≡ some w
      → IsFull r.chans w.result_ch
      → notify_watchers r ev ≡ blocked
  unfolding notify_watchers
  notify_watchers-waits i w found full =
      rw (notify_all-waits r.watchers i w ev r.chans all_open found full)

  -- With room for the event in each registered channel it returns.
  pub notify_watchers-returns : HasSpace r → (r' : Watchers T) × (notify_watchers r ev ≡ done r')
  unfolding notify_watchers
  notify_watchers-returns room =
      let (h, sent) = notify_all-returns r.watchers ev r.chans v.unique v.apart room in
      (record r { chans = h }, rw sent)
