-- ===== src/DataServer/Stopped.antt =====
-- pkg/dataserver/client/client.go: the life of a client, as steps.
use apiserver_runtime_exampl.Base.{
  ℕ, ◌≡◌, refl, sym, ap, ◌∙◌, inl, inr, Option, none, some, Text, is_nil, Bool-cases, panicked,
  Result, ok, err, ok-injective,
}
use apiserver_runtime_exampl.DataServer.{
  Config, Client, new, start, dialled, get_address, stop, closed, cancelled,
}

module _ {W E : Type 0} (dial : W → Text → W × Result E ℕ) where
  -- The clients that `New` makes and any number of `Start`s, failed or not, leave.
  pub data Reached : Client → Type 0 where
    made : (cfg : Option Config) (r : Client) → new cfg ≡ ok r → Reached r
    started : (w : W) (r : Client) → Reached r → Reached (start dial w r).1

  new-cancel : (cfg : Option Config) (r : Client) → new cfg ≡ ok r → r.cancel ≡ none
  unfolding new
  new-cancel none r h = cc
  new-cancel (some cfg) r h = elim (Bool-cases (is_nil cfg.address)) [
    | inl empty ↦ let wrong = rw empty at h in cc
    | inr named ↦ ap (λ x. x.cancel) (ok-injective (sym (rw named at h)))
  ]

  dialled-cancel :
      (r : Client) (answer : W × Result E ℕ) → (dialled dial r answer).1.cancel ≡ r.cancel
  unfolding dialled
  dialled-cancel r (w, err e) = refl
  dialled-cancel r (w, ok conn) = refl

  Reached-cancel : (r : Client) → Reached r → r.cancel ≡ none
  unfolding start
  Reached-cancel r (made cfg _ h) = new-cancel cfg r h
  Reached-cancel _ (started w r before) =
      dialled-cancel r (dial w (get_address r)) ∙ Reached-cancel r before

  closed-panics :
      (close : W → ℕ → W) (w : W) (r : Client) (conn : Option ℕ)
      → r.cancel ≡ none
      → closed close w r conn ≡ panicked
  unfolding closed cancelled
  closed-panics close w r none h = refl
  closed-panics close w r (some c) h = rw h refl

  -- Nothing sets the function that `Stop` calls: `Stop` panics on every client, started or not.
  pub stop-panics : (close : W → ℕ → W) (w : W) (r : Client) → Reached r → stop close w r ≡ panicked
  unfolding stop
  stop-panics close w r reached = closed-panics close w r r.conn (Reached-cancel r reached)
