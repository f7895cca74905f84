-- ===== src/Api/Condition/Setting.antt =====
-- What `SetConditions` changes, and what it leaves.
use apiserver_runtime_exampl.Base.{
  ◌≡◌, refl, ap, ◌∙◌, ◌≢◌, inl, inr, true, false, List, [], ◌∷◌, ◌++◌, arith, Text, All, map, count,
  count-append, ◌≤◌, contains, text_eq, ≟_refl, Bool-cases,
}
use apiserver_runtime_exampl.Api.Condition.{
  Condition, equal, get_condition, set_existing, set_condition, set_conditions,
}

module _ {Time : Type 0} where
  equal_refl : (c : Condition Time) → equal c c ≡ true
  unfolding equal
  equal_refl c = rw (≟_refl c.type_of, ≟_refl c.status, ≟_refl c.reason, ≟_refl c.message)

  -- The type under which a condition is found does not depend on `equal` ones.
  equal-type_of : (c d : Condition Time) → equal c d ≡ true → c.type_of ≡ d.type_of
  unfolding equal
  equal-type_of c d e = ground arith

  -- Of another type, what is found is as before.
  get_condition-set_existing_ne :
      (z : Time) (new : Condition Time) (cs : List (Condition Time)) (t : Text)
      → new.type_of ≢ t
      → get_condition z (set_existing new cs).0 t ≡ get_condition z cs t
  unfolding get_condition set_existing
  get_condition-set_existing_ne z new [] t h = refl
  get_condition-set_existing_ne z new (c ∷ cs) t h =
      ground (arith, get_condition-set_existing_ne z new cs t h)

  get_condition-append_ne :
      (z : Time) (new : Condition Time) (cs : List (Condition Time)) (t : Text)
      → new.type_of ≢ t
      → get_condition z (cs ++ new ∷ []) t ≡ get_condition z cs t
  unfolding get_condition
  get_condition-append_ne z new [] t h = ground arith
  get_condition-append_ne z new (c ∷ cs) t h = ground (arith, get_condition-append_ne z new cs t h)

  -- Of its own type, the new condition is found if one existed.
  get_condition-set_existing_self :
      (z : Time) (new : Condition Time) (cs : List (Condition Time))
      → (set_existing new cs).1 ≡ true
      → equal (get_condition z (set_existing new cs).0 new.type_of) new ≡ true
  unfolding get_condition set_existing
  get_condition-set_existing_self z new [] h = cc
  get_condition-set_existing_self z new (c ∷ cs) h =
      ground (arith, get_condition-set_existing_self z new cs, equal_refl new)

  get_condition-append_self :
      (z : Time) (new : Condition Time) (cs : List (Condition Time))
      → (set_existing new cs).1 ≡ false
      → get_condition z ((set_existing new cs).0 ++ new ∷ []) new.type_of ≡ new
  unfolding get_condition set_existing
  get_condition-append_self z new [] h = ground (arith, ≟_refl new.type_of)
  get_condition-append_self z new (c ∷ cs) h = ground (arith, get_condition-append_self z new cs)

  -- After one condition was set, a condition `Equal` to it is found under its type, and under each
  -- other type what was found before.
  pub get_condition-set_condition :
      (z : Time) (cs : List (Condition Time)) (new : Condition Time)
      → (equal (get_condition z (set_condition cs new) new.type_of) new ≡ true)
        × ((t : Text)
            → new.type_of ≢ t
            → get_condition z (set_condition cs new) t ≡ get_condition z cs t)
  unfolding set_condition
  get_condition-set_condition z cs new = elim (Bool-cases (set_existing new cs).1) [
    | inl there ↦ (
      rw there (get_condition-set_existing_self z new cs there),
      λ t h. rw there (get_condition-set_existing_ne z new cs t h),
    )
    | inr absent ↦ (
      rw (absent, get_condition-append_self z new cs absent) (equal_refl new),
      λ t h. rw absent (
          get_condition-append_ne z new (set_existing new cs).0 t h
          ∙ get_condition-set_existing_ne z new cs t h),
    )
  ]

  -- The types of the conditions.
  abbrev pub types : List (Condition Time) → List Text
  types cs = map (λ c. c.type_of) cs

  -- No type occurs twice.
  abbrev pub HasUniqueTypes : List (Condition Time) → Type 0
  HasUniqueTypes cs = (t : Text) → count t (types cs) ≤ 1

  types-set_existing :
      (new : Condition Time) (cs : List (Condition Time)) → types (set_existing new cs).0 ≡ types cs
  unfolding set_existing
  types-set_existing new [] = refl
  types-set_existing new (c ∷ cs) = ground (arith, types-set_existing new cs)

  count-set_existing :
      (new : Condition Time) (cs : List (Condition Time))
      → (set_existing new cs).1 ≡ false
      → count new.type_of (types cs) ≡ 0
  unfolding set_existing
  count-set_existing new [] h = refl
  count-set_existing new (c ∷ cs) h = ground (arith, count-set_existing new cs)

  types-append :
      (cs : List (Condition Time)) (new : Condition Time)
      → types (cs ++ new ∷ []) ≡ types cs ++ new.type_of ∷ []
  types-append [] new = refl
  types-append (c ∷ cs) new = ap (◌∷◌ c.type_of) (types-append cs new)

  set_condition-HasUniqueTypes :
      (cs : List (Condition Time)) (new : Condition Time)
      → HasUniqueTypes cs
      → HasUniqueTypes (set_condition cs new)
  unfolding set_condition
  set_condition-HasUniqueTypes cs new h t = elim (Bool-cases (set_existing new cs).1) [
    | inl there ↦ rw (there, types-set_existing new cs) (h t)
    | inr absent ↦
        rw (absent, types-append (set_existing new cs).0 new, types-set_existing new cs)
          (ground (
            arith,
            count-append t (types cs) (new.type_of ∷ []),
            count-set_existing new cs absent,
            h t,
          ))
  ]

  -- `SetConditions` keeps at most one condition of each type, whatever it is given.
  pub set_conditions-HasUniqueTypes :
      (cs news : List (Condition Time))
      → HasUniqueTypes cs
      → HasUniqueTypes (set_conditions cs news)
  unfolding set_conditions
  set_conditions-HasUniqueTypes cs [] h = h
  set_conditions-HasUniqueTypes cs (new ∷ news) h =
      set_conditions-HasUniqueTypes (set_condition cs new) news
        (set_condition-HasUniqueTypes cs new h)

  set_existing-absent :
      (new : Condition Time) (cs : List (Condition Time))
      → count new.type_of (types cs) ≤ 0
      → (set_existing new cs).0 ≡ cs
  unfolding set_existing
  set_existing-absent new [] h = refl
  set_existing-absent new (c ∷ cs) h = ground (arith, set_existing-absent new cs)

  set_existing-same :
      (z : Time) (new : Condition Time) (cs : List (Condition Time))
      → HasUniqueTypes cs
      → contains (types cs) new.type_of ≡ true
      → equal (get_condition z cs new.type_of) new ≡ true
      → set_existing new cs ≡ (cs, true)
  unfolding set_existing get_condition
  set_existing-same z new [] u h e = cc
  set_existing-same z new (c ∷ cs) u h e = elim (text_eq.dec c.type_of new.type_of) [
    | yes same ↦
        let alone = set_existing-absent new cs (ground (arith, u new.type_of)) in
        ground (arith, same, alone, e)
    | no ne ↦
        let rest =
          set_existing-same z new cs (λ t. ground (arith, u t)) (ground arith) (ground arith) in
        ground (arith, ne, rest)
  ]

  -- A call of `SetConditions` changes nothing if there is one condition at most of each type and
  -- each new condition is `Equal` to the one that exists of its type.
  pub set_conditions-same :
      (z : Time) (cs news : List (Condition Time))
      → HasUniqueTypes cs
      → All
          (λ new.
            (contains (types cs) new.type_of ≡ true)
            × (equal (get_condition z cs new.type_of) new ≡ true))
          news
      → set_conditions cs news ≡ cs
  unfolding set_conditions set_condition
  set_conditions-same z cs [] u h = refl
  set_conditions-same z cs (new ∷ news) u ((there, same), h) =
      rw (set_existing-same z new cs u there same) (set_conditions-same z cs news u h)
