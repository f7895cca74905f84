-- ===== src/Store/Memory/Refines.antt =====
-- The store in memory against the contract of `Storer`.
use apiserver_runtime_exampl.Base.{
  ◌≡◌, refl, sym, subst, ap, ◌∙◌, Bool, true, false, Option, none, some, [], ◌∷◌, if◌then◌else◌,
  done, ◌>>=◌, >>=-eq-done, done-injective, Result, ok, err, lookup, insert, erase, NodupKeys,
  lookup-insert, lookup-erase, insert-NodupKeys, erase-NodupKeys, nat_eq, ◌≟◌,
}
use apiserver_runtime_exampl.Watch.{Event, deleted}
use apiserver_runtime_exampl.Watch.Watchers.{notify_watchers}
use apiserver_runtime_exampl.Watch.Watchers.Consistent.{IsConsistent}
use apiserver_runtime_exampl.Watch.Watchers.Received.{
  Received, Received-none, notify_watchers-Received,
}
use apiserver_runtime_exampl.Store.Key.{Key, key_eq}
use apiserver_runtime_exampl.Store.Contract.{
  StoreError, Call, create, update, delete, View, Reply, put, create_spec, update_spec, delete_spec,
  call_spec,
}
use apiserver_runtime_exampl.Store.Memory.{
  Mem, found, get, notify, write, drop, create_with, update_with, delete_with, run_call,
}

module _ {ℓ} {T : Type ℓ} where
  abbrev pub view : Mem T → View T
  view r k = lookup k r.db

  found-ok : (k : Key) (o : Option T) {x : T} → found k o ≡ ok x → o ≡ some x
  unfolding found
  found-ok k none h = cc
  found-ok k (some y) h = cc

  -- `Get` answers with what the view holds.
  pub get-view : (r : Mem T) (k : Key) {x : T} → get r k ≡ ok x → view r k ≡ some x
  unfolding get
  get-view r k h = found-ok k (lookup k r.db) h

  pub view-get : (r : Mem T) (k : Key) {x : T} → view r k ≡ some x → get r k ≡ ok x
  unfolding get found
  view-get r k h = rw h

  found-err : (k : Key) (o : Option T) {e : StoreError} → found k o ≡ err e → o ≡ none
  unfolding found
  found-err k none h = refl
  found-err k (some y) h = cc

  pub get-missing : (r : Mem T) (k : Key) {e : StoreError} → get r k ≡ err e → view r k ≡ none
  unfolding get
  get-missing r k h = found-err k (lookup k r.db) h

  pub record IsStore (r : Mem T) : Type ℓ where
    pub unique : NodupKeys r.db
    pub consistent : IsConsistent r.watchers

  notify_lem :
      (r r' : Mem T) (ev : Event T)
      → IsStore r
      → notify r ev ≡ done r'
      → (r'.db ≡ r.db) × IsConsistent r'.watchers × Received r.watchers r'.watchers (ev ∷ [])
  unfolding notify
  notify_lem r r' ev v sent =
      let (ws, told, same) = >>=-eq-done (notify_watchers r.watchers ev) _ sent in
      let after = done-injective same in
      let (consistent, received) = notify_watchers-Received r.watchers ws ev v.consistent told in
      (
        ap (λ x. x.db) (sym after),
        subst (λ x. IsConsistent x.watchers) after consistent,
        subst (λ x. Received r.watchers x.watchers (ev ∷ [])) after received,
      )

  -- The store after a call and the call's result are as a reply of the contract says.
  abbrev pub Meets : Mem T → Mem T → Result StoreError (Unit {0}) → Reply T → Type ℓ
  Meets r r' res p =
      IsStore r'
      × ((k : Key) → view r' k ≡ p.state k)
      × (res ≡ p.result)
      × Received r.watchers r'.watchers p.events

  put-IsStore : (r : Mem T) (k : Key) (x : T) → IsStore r → IsStore (write r k x)
  unfolding write
  put-IsStore r k x v = record {
    unique = insert-NodupKeys k x r.db v.unique;
    consistent = v.consistent;
  }

  -- A write and a notification.
  write_then_notify :
      (r r' : Mem T) (k : Key) (x : T) (ev : Event T)
      → IsStore r
      → notify (write r k x) ev ≡ done r'
      → IsStore r'
        × ((j : Key) → view r' j ≡ (if k ≟ j then some x else view r j))
        × Received r.watchers r'.watchers (ev ∷ [])
  unfolding write
  write_then_notify r r' k x ev v sent =
      let (db, consistent, received) = notify_lem (write r k x) r' ev (put-IsStore r k x v) sent in
      (
        record {
          unique = subst NodupKeys (sym db) (insert-NodupKeys k x r.db v.unique);
          consistent = consistent;
        },
        λ j. ap (lookup j) db ∙ lookup-insert k j x r.db,
        record { same = received.same; got = received.got },
      )

  module _ (r r' : Mem T) (k : Key) (x : T) (res : Result StoreError (Unit {0}))
      (v : IsStore r) where
    written :
        (ev : Event T)
        → ◌>>=◌ {B = Mem T × Result StoreError (Unit {0})}
            (notify (write r k x) ev)
            (λ q. done (q, ok tt))
          ≡ done (r', res)
        → Meets r r' res (record { state = put (view r) k x; result = ok tt; events = ev ∷ [] })
    written ev ran =
        let (q, sent, same) = >>=-eq-done (notify (write r k x) ev) _ ran in
        let (valid, views, received) = write_then_notify r q k x ev v sent in
        let after : q ≡ r' = ap (λ p. p.0) (done-injective same) in
        (
          subst IsStore after valid,
          λ j. ap (λ p. view p j) (sym after) ∙ views j,
          ap (λ p. p.1) (done-injective (sym same)),
          subst (λ p. Received r.watchers p.watchers (ev ∷ [])) after received,
        )

    create_with-Meets :
        (o : Option T)
        → create_with r k x (found k o) ≡ done (r', res)
        → Meets r r' res (create_spec (view r) k x o)
    unfolding create_with found
    create_with-Meets none ran = written _ ran
    create_with-Meets (some old) ran =
        let same = done-injective ran in
        (
          subst IsStore (ap (λ p. p.0) same) v,
          λ j. ap (λ p. view p.0 j) (sym same),
          ap (λ p. p.1) (sym same),
          Received-none r.watchers r'.watchers (ap (λ p. p.0.watchers) (sym same)),
        )

    -- A write, with a notification unless the test holds.
    settled :
        (b : Bool) (ev : Event T)
        → (if b
            then done (write r k x, ok tt)
            else ◌>>=◌ {B = Mem T × Result StoreError (Unit {0})}
                (notify (write r k x) ev)
                (λ q. done (q, ok tt)))
          ≡ done (r', res)
        → Meets r r' res (record {
          state = put (view r) k x;
          result = ok tt;
          events = if b then [] else ev ∷ [];
        })
    unfolding write
    settled true ev ran =
        let same = done-injective ran in
        let after : record r { db = insert k x r.db } ≡ r' = ap (λ p. p.0) same in
        (
          subst IsStore after (put-IsStore r k x v),
          λ j. ap (λ p. view p j) (sym after) ∙ lookup-insert k j x r.db,
          ap (λ p. p.1) (sym same),
          Received-none r.watchers r'.watchers (ap (λ p. p.watchers) (sym after)),
        )
    settled false ev ran = written ev ran

    update_with-Meets :
        (deep_equal : T → T → Bool) (o : Option T)
        → update_with deep_equal r k x (found k o) ≡ done (r', res)
        → Meets r r' res (update_spec deep_equal (view r) k x o)
    unfolding update_with found
    update_with-Meets deep_equal none ran = written _ ran
    update_with-Meets deep_equal (some old) ran = settled (deep_equal old x) _ ran

  delete_with-Meets :
      (r r' : Mem T) (k : Key) (res : Result StoreError (Unit {0})) (o : Option T)
      → IsStore r
      → lookup k r.db ≡ o
      → delete_with r k (found k o) ≡ done (r', res)
      → Meets r r' res (delete_spec (view r) k o)
  unfolding delete_with found drop
  delete_with-Meets r r' k res none v e ran =
      let same = done-injective ran in
      (
        subst IsStore (ap (λ p. p.0) same) v,
        λ j. ap (λ p. view p.0 j) (sym same),
        ap (λ p. p.1) (sym same),
        Received-none r.watchers r'.watchers (ap (λ p. p.0.watchers) (sym same)),
      )
  delete_with-Meets r r' k res (some old) v e ran =
      let (q, sent, same) =
        >>=-eq-done (notify r (record { event_type = deleted; object = old })) _ ran in
      let (db, consistent, received) = notify_lem r q _ v sent in
      let after : drop q k ≡ r' = ap (λ p. p.0) (done-injective same) in
      (
        subst IsStore after (record {
          unique = erase-NodupKeys k q.db (subst NodupKeys (sym db) v.unique);
          consistent = consistent;
        }),
        λ j.
            ap (λ p. view p j) (sym after)
            ∙ ap (λ m. lookup j (erase k m)) db
            ∙ lookup-erase k j r.db,
        ap (λ p. p.1) (done-injective (sym same)),
        subst
            (λ p.
              Received r.watchers p.watchers (record { event_type = deleted; object = old } ∷ []))
            after (record { same = received.same; got = received.got }),
      )

  -- On a consistent store, a create, update or delete that returned has changed the lookups,
  -- answered and notified the registered watchers as the contract says, and left the store
  -- consistent.
  pub run_call-Meets :
      (deep_equal : T → T → Bool) (r r' : Mem T) (c : Call T) (res : Result StoreError (Unit {0}))
      → IsStore r
      → run_call deep_equal r c ≡ done (r', res)
      → Meets r r' res (call_spec deep_equal (view r) c)
  unfolding run_call get
  run_call-Meets deep_equal r r' (create k x) res v ran =
      create_with-Meets r r' k x res v (lookup k r.db) ran
  run_call-Meets deep_equal r r' (update k x) res v ran =
      update_with-Meets r r' k x res v deep_equal (lookup k r.db) ran
  run_call-Meets deep_equal r r' (delete k) res v ran =
      delete_with-Meets r r' k res (lookup k r.db) v refl ran
