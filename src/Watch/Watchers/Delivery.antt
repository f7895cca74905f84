-- ===== src/Watch/Watchers/Delivery.antt =====
-- What `NotifyWatchers` delivers, and when it has to wait.
use apiserver_runtime_exampl.Base.{
  ℕ, ◌<◌, ◌≡◌, refl, sym, ap, subst, ◌∙◌, ◌≢◌, inl, inr, false, some, List, [], ◌∷◌, ◌++◌,
  append_assoc, append-nil, arith, if◌then◌else◌, done, blocked, panicked, done-injective,
  Outcome-cases, >>=-eq-done, All, length, get_elem?, get_elem?-set_ne, ◌≟◌, ≟_refl, Dict, lookup,
  NodupKeys, All-lookup, lookup-tail, nat_eq,
}
use apiserver_runtime_exampl.Channel.{
  Chan, Heap, IsOpen, HasRoom, pending, send, send-full, send-eq-done,
}
use apiserver_runtime_exampl.Channel.Sent.{
  send-IsOpen, pending-send, send-ne-panicked, send-HasRoom, send_other-HasRoom,
}
use apiserver_runtime_exampl.Watch.{Event}
use apiserver_runtime_exampl.Watch.Watchers.{WatchCtx, notify_all}

module _ {ℓ} {T : Type ℓ} where
  abbrev pub AllOpen : Dict ℕ WatchCtx → Heap (Event T) → Type ℓ
  AllOpen ws h = All (λ e. IsOpen h e.1.result_ch) ws

  abbrev pub AllRoom : Dict ℕ WatchCtx → Heap (Event T) → Type ℓ
  AllRoom ws h = All (λ e. HasRoom h e.1.result_ch) ws

  pub AllOpen-send :
      (ws : Dict ℕ WatchCtx) (h h' : Heap (Event T)) (r : ℕ) (ev : Event T)
      → send h r ev ≡ done h'
      → AllOpen ws h
      → AllOpen ws h'
  AllOpen-send [] h h' r ev sent o = tt
  AllOpen-send ((i, w) ∷ ws) h h' r ev sent (first, rest) =
      (send-IsOpen h h' r w.result_ch ev sent first, AllOpen-send ws h h' r ev sent rest)

  pub notify_all-IsOpen :
      (ws : Dict ℕ WatchCtx) (ev : Event T) (h h' : Heap (Event T)) (j : ℕ)
      → notify_all ws ev h ≡ done h'
      → IsOpen h j
      → IsOpen h' j
  unfolding notify_all
  notify_all-IsOpen [] ev h h' j sent o = subst (λ x. IsOpen x j) (done-injective sent) o
  notify_all-IsOpen ((i, w) ∷ ws) ev h h' j sent o =
      let (h₁, first, rest) = >>=-eq-done (send h w.result_ch ev) _ sent in
      notify_all-IsOpen ws ev h₁ h' j rest (send-IsOpen h h₁ w.result_ch j ev first o)

  pub notify_all-ne-panicked :
      (ws : Dict ℕ WatchCtx) (ev : Event T) (h : Heap (Event T))
      → AllOpen ws h
      → notify_all ws ev h ≢ panicked
  unfolding notify_all
  notify_all-ne-panicked [] ev h o bad = cc
  notify_all-ne-panicked ((i, w) ∷ ws) ev h (first, rest) bad =
      elim (Outcome-cases (send h w.result_ch ev)) [
        | inl (h₁, sent) ↦
            notify_all-ne-panicked ws ev h₁ (AllOpen-send ws h h₁ w.result_ch ev sent rest)
              (rw sent at bad)
        | inr (inl waits) ↦ cc
        | inr (inr panics) ↦ send-ne-panicked h w.result_ch ev first panics
      ]

  -- The copies of an event that go to a channel, one for each entry with that channel.
  abbrev pub copies : Dict ℕ WatchCtx → ℕ → Event T → List (Event T)
  copies [] j ev = []
  copies ((i, w) ∷ ws) j ev = (if w.result_ch ≟ j then ev ∷ [] else []) ++ copies ws j ev

  pub pending-notify_all :
      (ws : Dict ℕ WatchCtx) (ev : Event T) (h h' : Heap (Event T)) (j : ℕ)
      → notify_all ws ev h ≡ done h'
      → pending h' j ≡ pending h j ++ copies ws j ev
  unfolding notify_all
  pending-notify_all [] ev h h' j sent =
      rw append-nil (ap (λ x. pending x j) (sym (done-injective sent)))
  pending-notify_all ((i, w) ∷ ws) ev h h' j sent =
      let (h₁, first, rest) = >>=-eq-done (send h w.result_ch ev) _ sent in
      pending-notify_all ws ev h₁ h' j rest
      ∙ ap (λ xs. xs ++ copies ws j ev) (pending-send h h₁ w.result_ch j ev first)
      ∙ append_assoc (pending h j) _ (copies ws j ev)

  pub copies-none :
      (ws : Dict ℕ WatchCtx) (j : ℕ) (ev : Event T)
      → All (λ e. e.1.result_ch ≢ j) ws
      → copies ws j ev ≡ []
  copies-none [] j ev other = refl
  copies-none ((i, w) ∷ ws) j ev (first, rest) = ground (arith, copies-none ws j ev rest)

  pub copies-one :
      (ws : Dict ℕ WatchCtx) (i : ℕ) (w : WatchCtx) (ev : Event T)
      → NodupKeys ws
      → lookup i ws ≡ some w
      → ((k : ℕ) (v : WatchCtx) → lookup k ws ≡ some v → v.result_ch ≡ w.result_ch → k ≡ i)
      → copies ws w.result_ch ev ≡ ev ∷ []
  unfolding lookup
  copies-one [] i w ev u found apart = cc
  copies-one ((k, v) ∷ ws) i w ev (fresh, u) found apart = elim (nat_eq.dec k i) [
    | yes same ↦
        let others : All (λ e. e.1.result_ch ≢ w.result_ch) ws =
          All-lookup (λ e. e.1.result_ch ≢ w.result_ch) ws u
            λ j x there shared.
              cc (apart j x (lookup-tail k j v x ws fresh there) shared, same, fresh, there) in
        let value : v ≡ w = ground arith in ground (arith, copies-none ws w.result_ch ev others)
    | no other ↦
        let differs : v.result_ch ≢ w.result_ch = λ shared. other (apart k v (rw ≟_refl) shared) in
        let later : lookup i ws ≡ some w = ground arith in
        ground (
          arith,
          differs,
          copies-one ws i w ev u later
              λ j x there shared. apart j x (lookup-tail k j v x ws fresh there) shared,
        )
  ]

  -- A channel that holds as many events as it has room for.
  abbrev pub IsFull : Heap (Event T) → ℕ → Type ℓ
  IsFull h j =
      (c : Chan (Event T)) × (get_elem? h j ≡ some c)
      × (c.closed ≡ false)
      × ¬ (length c.buffer < c.capacity)

  pub notify_all-waits :
      (ws : Dict ℕ WatchCtx) (i : ℕ) (w : WatchCtx) (ev : Event T) (h : Heap (Event T))
      → AllOpen ws h
      → lookup i ws ≡ some w
      → IsFull h w.result_ch
      → notify_all ws ev h ≡ blocked
  unfolding notify_all lookup
  notify_all-waits [] i w ev h o found full = cc
  notify_all-waits ((k, v) ∷ ws) i w ev h (first, rest) found (c, there, alive, full) =
      elim (nat_eq.dec v.result_ch w.result_ch) [
        | yes shared ↦
            rw (
              send-full h v.result_ch ev c (ap (get_elem? h) shared ∙ there) alive full,
              notify_all,
            )
        | no differs ↦
            let later : lookup i ws ≡ some w = ground arith in
            elim (Outcome-cases (send h v.result_ch ev)) [
              | inl (h₁, sent) ↦
                  let (d, old, _, after) = send-eq-done h h₁ v.result_ch ev sent in
                  rw (sent, notify_all)
                    (notify_all-waits ws i w ev h₁ (AllOpen-send ws h h₁ v.result_ch ev sent rest)
                      later
                      (
                        c,
                        ap (λ x. get_elem? x w.result_ch) after
                            ∙ get_elem?-set_ne h v.result_ch w.result_ch _ differs
                            ∙ there,
                        alive,
                        full,
                      ))
              | inr (inl waits) ↦ rw (waits, notify_all)
              | inr (inr panics) ↦ absurd (send-ne-panicked h v.result_ch ev first panics)
            ]
      ]

  pub notify_all-returns :
      (ws : Dict ℕ WatchCtx) (ev : Event T) (h : Heap (Event T))
      → NodupKeys ws
      → ((i j : ℕ) (w v : WatchCtx)
          → lookup i ws ≡ some w
          → lookup j ws ≡ some v
          → w.result_ch ≡ v.result_ch
          → i ≡ j)
      → ((i : ℕ) (w : WatchCtx) → lookup i ws ≡ some w → HasRoom h w.result_ch)
      → (h' : Heap (Event T)) × (notify_all ws ev h ≡ done h')
  unfolding notify_all lookup
  notify_all-returns [] ev h u apart room = (h, refl)
  notify_all-returns ((k, v) ∷ ws) ev h (fresh, u) apart room =
      let head : lookup k ((k, v) ∷ ws) ≡ some v = rw ≟_refl in
      let tail = λ (j : ℕ) (x : WatchCtx) (there : lookup j ws ≡ some x).
        lookup-tail k j v x ws fresh there in
      let (h₁, sent) = send-HasRoom h v.result_ch ev (room k v head) in
      let (h₂, rest) =
        notify_all-returns ws ev h₁ u
          (λ i j w x there there' shared. apart i j w x (tail i w there) (tail j x there') shared)
          (λ i w there.
            send_other-HasRoom h h₁ v.result_ch w.result_ch ev sent
              (λ shared. cc (apart k i v w head (tail i w there) shared, fresh, there))
              (room i w (tail i w there))) in
      (h₂, rw (sent, notify_all) rest)
