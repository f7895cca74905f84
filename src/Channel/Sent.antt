-- ===== src/Channel/Sent.antt =====
-- What one send does to every channel of the heap.
use apiserver_runtime_exampl.Base.{
  ℕ, ◌≡◌, ap, subst, ◌∙◌, ◌≢◌, some, [], ◌∷◌, ◌++◌, arith, if◌then◌else◌, done, panicked, get_elem?,
  set, get_elem?-set_self, get_elem?-set_ne, get_elem?-lt, ◌≟◌, nat_eq, ℕ_discrete, append-nil,
}
use apiserver_runtime_exampl.Channel.{
  Chan, Heap, IsOpen, HasRoom, pending, pending_of, send, send-room, send-eq-done,
}

module _ {ℓ} {E : Type ℓ} where
  pub send-IsOpen :
      (h h' : Heap E) (r j : ℕ) (e : E) → send h r e ≡ done h' → IsOpen h j → IsOpen h' j
  send-IsOpen h h' r j e sent (d, there, alive) =
      let (c, found, not_closed, after) = send-eq-done h h' r e sent in
      elim (ℕ_discrete r j) [
        | yes same ↦ (
          record c { buffer = c.buffer ++ e ∷ [] },
          ap (λ x. get_elem? x j) after
              ∙ (subst
                  (λ x.
                    get_elem? (set h r (record c { buffer = c.buffer ++ e ∷ [] })) x
                    ≡ some (record c { buffer = c.buffer ++ e ∷ [] }))
                  same (get_elem?-set_self h r _ (get_elem?-lt h r found))),
          not_closed,
        )
        | no other ↦
            (d, ap (λ x. get_elem? x j) after ∙ get_elem?-set_ne h r j _ other ∙ there, alive)
      ]

  -- The event is at the end of its own channel's buffer; the other buffers are as before.
  pub pending-send :
      (h h' : Heap E) (r j : ℕ) (e : E)
      → send h r e ≡ done h'
      → pending h' j ≡ pending h j ++ (if r ≟ j then e ∷ [] else [])
  pending-send h h' r j e sent =
      let (c, found, not_closed, after) = send-eq-done h h' r e sent in
      let c' : Chan E = record c { buffer = c.buffer ++ e ∷ [] } in
      let here = get_elem?-set_self h r c' (get_elem?-lt h r found) in
      elim (nat_eq.dec r j) [
        | yes same ↦ ground (
          arith,
          ap (λ x. pending x r) after,
          ap pending_of here,
          ap pending_of found,
          ap (pending h') same,
          ap (pending h) same,
        )
        | no other ↦ ground (
          arith,
          ap (λ x. pending x j) after,
          ap pending_of (get_elem?-set_ne h r j c' other),
          append-nil (pending h j),
        )
      ]

  -- A send into an open channel comes back or waits.
  pub send-ne-panicked : (h : Heap E) (r : ℕ) (e : E) → IsOpen h r → send h r e ≢ panicked
  unfolding send
  send-ne-panicked h r e (c, there, alive) bad = ground arith

  pub send-HasRoom :
      (h : Heap E) (r : ℕ) (e : E) → HasRoom h r → (h' : Heap E) × (send h r e ≡ done h')
  send-HasRoom h r e (c, there, alive, room) = (_, send-room h r e c there alive room)

  -- It takes no room from another channel.
  pub send_other-HasRoom :
      (h h' : Heap E) (r j : ℕ) (e : E) → send h r e ≡ done h' → r ≢ j → HasRoom h j → HasRoom h' j
  send_other-HasRoom h h' r j e sent other (d, there, alive, room) =
      let (c, found, not_closed, after) = send-eq-done h h' r e sent in
      (d, ap (λ x. get_elem? x j) after ∙ get_elem?-set_ne h r j _ other ∙ there, alive, room)
