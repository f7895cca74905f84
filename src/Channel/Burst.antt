-- ===== src/Channel/Burst.antt =====
-- Several sends in a row on one channel that nobody reads meanwhile.
use apiserver_runtime_exampl.Base.{
  ℕ, ◌+◌, ◌<◌, ◌≤◌, ◌≡◌, ap, ◌∙◌, false, some, List, [], ◌∷◌, ◌++◌, append_assoc, append-nil, arith,
  Outcome, done, blocked, ◌>>=◌, get_elem?, set, get_elem?-set_self, get_elem?-lt, length,
  length-append, sym, set-set, set-get_elem?, dec_lt,
}
use apiserver_runtime_exampl.Channel.{Chan, Heap, send, send-room, send-full}

module _ {ℓ} {E : Type ℓ} where
  unfoldable pub send_all : Heap E → ℕ → List E → Outcome (Heap E)
  send_all h r [] = done h
  send_all h r (e ∷ es) = do h' ← send h r e; send_all h' r es

  -- If all of them fit they are buffered in order, and the other channels stay as they are.
  pub send_all-fits :
      (h : Heap E) (r : ℕ) (es : List E) (c : Chan E)
      → get_elem? h r ≡ some c
      → c.closed ≡ false
      → length c.buffer + length es ≤ c.capacity
      → send_all h r es ≡ done (set h r (record c { buffer = c.buffer ++ es }))
  unfolding send_all
  send_all-fits h r [] c there alive room =
      rw append-nil (ap done (sym (set-get_elem? h r c there)))
  send_all-fits h r (e ∷ es) c there alive room =
      let c' : Chan E = record c { buffer = c.buffer ++ e ∷ [] } in
      rw (send-room h r e c there alive (omega arith)) (
        send_all-fits (set h r c') r es c' (get_elem?-set_self h r c' (get_elem?-lt h r there))
          alive (omega (arith, length-append c.buffer (e ∷ [])))
        ∙ ap done (
            set-set h r c' _
            ∙ ap (λ b. set h r (record c { buffer = b })) (append_assoc c.buffer (e ∷ []) es)))

  -- If they do not fit the sender waits.
  pub send_all-overflows :
      (h : Heap E) (r : ℕ) (es : List E) (c : Chan E)
      → get_elem? h r ≡ some c
      → c.closed ≡ false
      → length c.buffer ≤ c.capacity
      → c.capacity < length c.buffer + length es
      → send_all h r es ≡ blocked
  unfolding send_all
  send_all-overflows h r [] c there alive small big = absurd (omega arith)
  send_all-overflows h r (e ∷ es) c there alive small big =
      elim (dec_lt (length c.buffer) c.capacity) [
        | no full ↦ rw (send-full h r e c there alive full)
        | yes room ↦
            let c' : Chan E = record c { buffer = c.buffer ++ e ∷ [] } in
            rw (send-room h r e c there alive room) (
              send_all-overflows (set h r c') r es c'
                (get_elem?-set_self h r c' (get_elem?-lt h r there)) alive
                (omega (arith, length-append c.buffer (e ∷ [])))
                (omega (arith, length-append c.buffer (e ∷ []))))
      ]
