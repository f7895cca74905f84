-- ===== src/Resource/Finalizer/Api.antt =====
-- `APIFinalizer`: the finalizers of an object, kept in step with the API server.
use apiserver_runtime_exampl.Base.{
  ◌≤◌, ◌≡◌, refl, ap, Bool, true, false, Option, some, none, List, [], ◌∷◌, ◌++◌, arith, Text,
  if◌then◌else◌, ≟_refl, ≟_ne, count, count-append, Bool-cases, inl, inr, text_eq, Outcome, done,
  ◌>>=◌,
}
use apiserver_runtime_exampl.Resource.Finalizer.{remove_finalizer, finalizer_exists, add_finalizer}
use apiserver_runtime_exampl.Resource.Finalizer.Removal.{without, remove_finalizer-without}

-- An object: its finalizers, and the rest of it.
pub record Object (X : Type 0) : Type 0 where
  pub rest : X
  pub finalizers : List Text

-- `errors.Wrap(err, errUpdateObject)`
pub data UpdateFailed (E : Type 0) : Type 0 where
  cannot_update : E → UpdateFailed E

abbrev pub wrap : {E : Type 0} → Option E → Option (UpdateFailed E)
wrap none = none
wrap (some e) = some (cannot_update e)

-- `Ignore`
unfoldable pub ignore : {E : Type 0} → (E → Bool) → Option E → Option E
ignore is none = none
ignore is (some e) = if is e then none else some e

exists-append : (fs : List Text) (fin : Text) → finalizer_exists (fs ++ fin ∷ []) fin ≡ true
unfolding finalizer_exists
exists-append [] fin = rw (≟_refl fin)
exists-append (e ∷ fs) fin = ground (arith, exists-append fs fin)

count-absent : (fs : List Text) (fin : Text) → finalizer_exists fs fin ≡ false → count fin fs ≡ 0
unfolding finalizer_exists
count-absent [] fin h = refl
count-absent (e ∷ fs) fin h = ground (arith, count-absent fs fin)

count-one : (fin : Text) → count fin (fin ∷ []) ≡ 1
count-one fin = rw (≟_refl fin)

without-absent :
    (fs : List Text) (fin : Text)
    → finalizer_exists fs fin ≡ false
    → without fin (fs ++ fin ∷ []) ≡ fs
unfolding finalizer_exists
without-absent [] fin h = rw (≟_refl fin)
without-absent (e ∷ fs) fin h = elim (text_eq.dec e fin) [
  | yes same ↦ ground arith
  | no ne ↦ rw (≟_ne e fin ne) (ap (◌∷◌ e) (without-absent fs fin (ground arith)))
]

-- The client's `Update` fills in the object, and changes the server's state.
module _ {X W E : Type 0} (client_update : W → Object X → W × Object X × Option E)
    (is_not_found : E → Bool) where
  abbrev pub Reply : Type 0
  Reply = W × Object X × Option (UpdateFailed E)

  -- `errors.Wrap(a.client.Update(ctx, obj), errUpdateObject)`
  abbrev pub send_update : (Option E → Option E) → W → Object X → Reply
  send_update f w o = let (w', o', e) = client_update w o in (w', o', wrap (f e))

  -- `APIFinalizer.AddFinalizer`
  unfoldable pub api_add_finalizer : Text → W → Object X → Reply
  unfolding add_finalizer
  api_add_finalizer fin w o =
      if finalizer_exists o.finalizers fin
      then (w, o, none)
      else send_update (λ e. e) w
          (record { rest = o.rest; finalizers = add_finalizer o.finalizers fin })

  -- `APIFinalizer.RemoveFinalizer`
  unfoldable pub api_remove_finalizer : Text → W → Object X → Outcome Reply
  unfolding ignore
  api_remove_finalizer fin w o =
      if finalizer_exists o.finalizers fin
      then (remove_finalizer o.finalizers fin >>= λ fs.
          done (send_update (ignore is_not_found) w (record { rest = o.rest; finalizers = fs })))
      else done (w, o, none)

  -- If the client's update leaves the object's finalizers, a second `AddFinalizer` changes nothing
  -- and makes no call, whether the first call failed or not.
  pub api_add_finalizer_twice :
      (fin : Text) (w : W) (o : Object X)
      → ((v : W) (p : Object X) → (client_update v p).1.finalizers ≡ p.finalizers)
      → api_add_finalizer fin (api_add_finalizer fin w o).0 (api_add_finalizer fin w o).1
        ≡ ((api_add_finalizer fin w o).0, (api_add_finalizer fin w o).1, none)
  unfolding api_add_finalizer add_finalizer
  api_add_finalizer_twice fin w o keeps = elim (Bool-cases (finalizer_exists o.finalizers fin)) [
    | inl there ↦ rw (there, there)
    | inr absent ↦
        let kept = keeps w (record { rest = o.rest; finalizers = o.finalizers ++ fin ∷ [] }) in
        rw (absent, kept, exists-append o.finalizers fin)
  ]

  -- Where a finalizer is absent and the client's update leaves the object's finalizers, removing it
  -- after it was added returns, and sends the server the finalizers of the start.
  pub api_remove_finalizer_added :
      (fin : Text) (w : W) (o : Object X)
      → ((v : W) (p : Object X) → (client_update v p).1.finalizers ≡ p.finalizers)
      → finalizer_exists o.finalizers fin ≡ false
      → api_remove_finalizer fin (api_add_finalizer fin w o).0 (api_add_finalizer fin w o).1
        ≡ done (
            send_update
              (ignore is_not_found)
              (api_add_finalizer fin w o).0
              (record { rest = (api_add_finalizer fin w o).1.rest; finalizers = o.finalizers }))
  unfolding api_add_finalizer api_remove_finalizer add_finalizer
  api_remove_finalizer_added fin w o keeps absent =
      let kept = keeps w (record { rest = o.rest; finalizers = o.finalizers ++ fin ∷ [] }) in
      let once : count fin (o.finalizers ++ fin ∷ []) ≤ 1 = omega (
        arith,
        count-append fin o.finalizers (fin ∷ []),
        count-absent o.finalizers fin absent,
        count-one fin,
      ) in
      rw (
        absent,
        kept,
        exists-append o.finalizers fin,
        remove_finalizer-without (o.finalizers ++ fin ∷ []) fin once,
        without-absent o.finalizers fin absent,
      )
