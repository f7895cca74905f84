-- ===== src/Channel.antt =====
-- Go's buffered channels on a heap: a channel value is a reference, the position of the channel.
-- This is the language's own behaviour, which the components below share.
pub mod Sent
pub mod Burst
use apiserver_runtime_exampl.Base.{
  ℕ, zero, suc, ◌+◌, ◌<◌, ◌≡◌, refl, ◌≢◌, Bool, true, false, Option, none, some, List, [], ◌∷◌,
  ◌++◌, arith, ltb, if◌then◌else◌, Outcome, done, blocked, panicked, ◌>>=◌, length, get_elem?, set,
  get_elem?-set_self, get_elem?-set_ne, get_elem?-lt, length-set, get_elem?-append_left,
  get_elem?-append_self, Bool-cases,
}

pub record Chan {ℓ} (E : Type ℓ) : Type ℓ where
  pub buffer : List E
  pub capacity : ℕ
  pub closed : Bool

abbrev pub Heap {ℓ} : Type ℓ → Type ℓ
Heap E = List (Chan E)

module _ {ℓ} {E : Type ℓ} where
  -- `make(chan E, n)`: the new channel's reference is the old length of the heap.
  abbrev pub make_chan : ℕ → Chan E
  make_chan n = record { buffer = []; capacity = n; closed = false }

  -- `c <- e`: on a nil channel it waits for ever, on a closed one it panics.
  abbrev pub send_on : Option (Chan E) → E → Outcome (Chan E)
  send_on none e = blocked
  send_on (some c) e =
      if c.closed
      then panicked
      else if ltb (length c.buffer) c.capacity
      then done (record c { buffer = c.buffer ++ e ∷ [] })
      else blocked

  unfoldable pub send : Heap E → ℕ → E → Outcome (Heap E)
  send h r e = do c ← send_on (get_elem? h r) e; done (set h r c)

  -- `close(c)`: of a nil or a closed channel it panics.
  abbrev pub close_on : Option (Chan E) → Outcome (Chan E)
  close_on none = panicked
  close_on (some c) = if c.closed then panicked else done (record c { closed = true })

  unfoldable pub close : Heap E → ℕ → Outcome (Heap E)
  close h r = do c ← close_on (get_elem? h r); done (set h r c)

  -- The channel is there and not closed.
  abbrev pub IsOpen : Heap E → ℕ → Type ℓ
  IsOpen h r = (c : Chan E) × (get_elem? h r ≡ some c) × (c.closed ≡ false)

  -- It is open and its buffer is not full.
  abbrev pub HasRoom : Heap E → ℕ → Type ℓ
  HasRoom h r =
      (c : Chan E) × (get_elem? h r ≡ some c) × (c.closed ≡ false) × (length c.buffer < c.capacity)

  -- The events that wait in a channel.
  abbrev pub pending_of : Option (Chan E) → List E
  pending_of none = []
  pending_of (some c) = c.buffer

  abbrev pub pending : Heap E → ℕ → List E
  pending h r = pending_of (get_elem? h r)

  pub send-room :
      (h : Heap E) (r : ℕ) (e : E) (c : Chan E)
      → get_elem? h r ≡ some c
      → c.closed ≡ false
      → length c.buffer < c.capacity
      → send h r e ≡ done (set h r (record c { buffer = c.buffer ++ e ∷ [] }))
  unfolding send
  send-room h r e c found alive room = rw found (ground arith)

  pub send-full :
      (h : Heap E) (r : ℕ) (e : E) (c : Chan E)
      → get_elem? h r ≡ some c
      → c.closed ≡ false
      → ¬ (length c.buffer < c.capacity)
      → send h r e ≡ blocked
  unfolding send
  send-full h r e c found alive full = rw found (ground arith)

  -- What a send that came back has done.
  pub send-eq-done :
      (h h' : Heap E) (r : ℕ) (e : E)
      → send h r e ≡ done h'
      → (c : Chan E) × (get_elem? h r ≡ some c)
        × (c.closed ≡ false)
        × (h' ≡ set h r (record c { buffer = c.buffer ++ e ∷ [] }))
  unfolding send
  send-eq-done h h' r e sent = ground arith

  pub close-open :
      (h : Heap E) (r : ℕ) (c : Chan E)
      → get_elem? h r ≡ some c
      → c.closed ≡ false
      → close h r ≡ done (set h r (record c { closed = true }))
  unfolding close
  close-open h r c found alive = rw found (ground arith)
