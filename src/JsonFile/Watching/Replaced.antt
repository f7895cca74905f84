-- ===== src/JsonFile/Watching/Replaced.antt =====
-- pkg/filepath/jsonfile_rest.go: `Watch` numbers a watch by the number of the watches, which is an id
-- that another one has once a watch has been stopped.
use apiserver_runtime_exampl.Base.{
  ℕ, suc, ◌<◌, ◌≤◌, ◌≡◌, ◌≢◌, sym, ap, ◌∙◌, subst, Option, none, some, List, [], ◌∷◌, ◌++◌, arith,
  done, >>=-eq-done, done-injective, Result, ok, err, nat_eq, Dict, lookup, insert, NodupKeys,
  lookup-nil, lookup-insert, insert-NodupKeys, insert-fresh, length, length-append, ℕ_discrete,
}
use apiserver_runtime_exampl.Channel.{make_chan}
use apiserver_runtime_exampl.Channel.Burst.{send_all}
use apiserver_runtime_exampl.JsonFile.{FilepathRest, JsonWatch, RestError}
use apiserver_runtime_exampl.JsonFile.Watching.{added_events, watch_listed, watch, list}

-- The ids of the watches are the numbers below their number.
pub record IsNumbered (ws : Dict ℕ JsonWatch) : Type 0 where
  pub unique : NodupKeys ws
  pub below : (i : ℕ) → i < length ws → (w : JsonWatch) × (lookup i ws ≡ some w)
  pub fresh : (i : ℕ) → length ws ≤ i → lookup i ws ≡ none

pub nil-IsNumbered : IsNumbered []
nil-IsNumbered = record {
  unique = tt;
  below = λ i small. absurd (omega arith);
  fresh = λ i _. lookup-nil i;
}

pub insert-IsNumbered :
    (ws : Dict ℕ JsonWatch) (w : JsonWatch) → IsNumbered ws → IsNumbered (insert (length ws) w ws)
insert-IsNumbered ws w v =
    let longer : length (insert (length ws) w ws) ≡ suc (length ws) =
      ap length (insert-fresh (length ws) w ws (v.fresh (length ws) (omega arith)))
      ∙ omega (arith, length-append ws ((length ws, w) ∷ [])) in
    record {
      unique = insert-NodupKeys (length ws) w ws v.unique;
      below = λ i small. elim (ℕ_discrete (length ws) i) [
        | yes same ↦ (w, ground (arith, lookup-insert (length ws) i w ws))
        | no other ↦
            let (old, there) = v.below i (omega arith) in
            (old, ground (arith, lookup-insert (length ws) i w ws))
      ];
      fresh = λ i big.
          let gone = v.fresh i (omega arith) in
          let other : length ws ≢ i = λ same. omega arith in
          ground (arith, lookup-insert (length ws) i w ws);
    }

module _ {ℓ κ} {O : Type ℓ} {L : Type κ} where
  listed-registers :
      (f f' : FilepathRest O L) (jw jw' : JsonWatch) (l : FilepathRest O L × Result RestError L)
      → watch_listed f jw l ≡ done (f', ok jw')
      → (jw' ≡ jw) × (f'.watchers ≡ insert jw.id jw f.watchers)
  unfolding watch_listed
  listed-registers f f' jw jw' (g, err e) ran =
      let wrong = done-injective ran in let w = ap (λ x. x.1) wrong in cc
  listed-registers f f' jw jw' (g, ok l) ran =
      let (h, _, same) =
        >>=-eq-done (send_all f.chans jw.ch (added_events (f.meta.items l))) _ ran in
      let both = done-injective same in
      let second = ap (λ x. x.1) both in (sym cc, sym (ap (λ x. x.0.watchers) both))

  -- A watch that is opened is registered under the number of the watches before it.
  watch-registers :
      (f f' : FilepathRest O L) (ctx : Option (List ℕ)) (jw : JsonWatch)
      → watch f ctx ≡ done (f', ok jw)
      → (jw.id ≡ length f.watchers) × (f'.watchers ≡ insert (length f.watchers) jw f.watchers)
  unfolding watch
  watch-registers f f' ctx jw ran =
      let (same, ws) =
        listed-registers (record f { chans = f.chans ++ make_chan 10 ∷ [] }) f'
          (record { id = length f.watchers; ch = length f.chans }) jw (list f ctx) ran in
      (ap (λ w. w.id) same, ws ∙ ap (λ w. insert (length f.watchers) w f.watchers) (sym same))

  -- As long as nobody stops, ids are not given twice.
  pub watch-IsNumbered :
      (f f' : FilepathRest O L) (ctx : Option (List ℕ)) (jw : JsonWatch)
      → IsNumbered f.watchers
      → watch f ctx ≡ done (f', ok jw)
      → IsNumbered f'.watchers
  watch-IsNumbered f f' ctx jw v ran =
      subst IsNumbered (sym (watch-registers f f' ctx jw ran).1) (insert-IsNumbered f.watchers jw v)
