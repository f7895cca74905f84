-- ===== src/Reconciler/Profiles/Queued.antt =====
-- What is in the queue after the event of a profile.
use apiserver_runtime_exampl.Base.{
  ◌≡◌, ◌↔◌, refl, sym, subst, ap, ◌∙◌, ◌⊎◌, inl, inr, true, false, List, [], ◌∷◌, Text, text_eq,
  ◌≟◌, Result, ok, err, arith,
}
use apiserver_runtime_exampl.Store.Key.{Key, key_eq}
use apiserver_runtime_exampl.Api.Target.{Target}
use apiserver_runtime_exampl.Reconciler.Profiles.{
  connection_profile, sync_profile, target_key, requeue, requeue_listed, conn_add, sync_add,
  conn_update, sync_update,
}

-- `t` is one of the targets.
abbrev pub Among : Target → List Target → Type 0
Among t [] = ⊥
Among t (u ∷ us) = (t ≡ u) ⊎ Among t us

-- The key `j` is that of a listed target that names the profile.
pub record IsUser {E : Type 0} (list_targets : Text → Result E (List Target))
    (profile_of : Target → Text) (profile : Key) (j : Key) : Type 0 where
  pub targets : List Target
  pub listed : list_targets profile.namespace ≡ ok targets
  pub target : Target
  pub among : Among target targets
  pub names : profile_of target ≡ profile.name
  pub has_key : target_key target ≡ j

both : {A B C D H : Type 0} → (A ↔ (B ⊎ C)) → (H ↔ (D ⊎ A)) → H ↔ (D ⊎ B ⊎ C)
both (to, from) (to', from') = (
  λ h. elim (to' h) [ inl d ↦ inl d | inr a ↦ inr (to a) ],
  λ s. elim s [ inl d ↦ from' (inl d) | inr bc ↦ from' (inr (from bc)) ],
)

module _ {Q E : Type 0} (list_targets : Text → Result E (List Target)) (add : Q → Key → Q)
    (Has : Q → Key → Type 0)
    (add-Has : (q : Q) (k j : Key) → Has (add q k) j ↔ ((k ≡ j) ⊎ Has q j)) where
  -- The keys of the targets that name a profile.
  abbrev Uses : (Target → Text) → Text → List Target → Key → Type 0
  Uses profile_of name ts j = (t : Target) × Among t ts × (profile_of t ≡ name) × (target_key t ≡ j)

  requeue-Has :
      (profile_of : Target → Text) (name : Text) (ts : List Target) (q : Q) (j : Key)
      → Has (requeue list_targets add profile_of name ts q) j
        ↔ (Uses profile_of name ts j ⊎ Has q j)
  unfolding requeue
  requeue-Has profile_of name [] q j =
      (λ h. inr h, λ s. elim s [ inl (_, nowhere, _, _) ↦ absurd nowhere | inr h ↦ h ])
  requeue-Has profile_of name (t ∷ ts) q j = elim (text_eq.dec (profile_of t) name) [
    | yes same ↦
        let named : profile_of t ≟ name ≡ true = ground arith in
        let (to, from) = requeue-Has profile_of name ts (add q (target_key t)) j in
        let (split, join) = add-Has q (target_key t) j in
        rw named (
          λ h. elim (to h) [
            | inl (u, among, names, keyed) ↦ inl (u, inr among, names, keyed)
            | inr h' ↦ elim (split h') [
              | inl this ↦ inl (t, inl refl, same, this)
              | inr before ↦ inr before
            ]
          ],
          λ s. elim s [
            | inl (u, inl first, names, keyed) ↦
                from (inr (join (inl (ap target_key (sym first) ∙ keyed))))
            | inl (u, inr among, names, keyed) ↦ from (inl (u, among, names, keyed))
            | inr before ↦ from (inr (join (inr before)))
          ],
        )
    | no other ↦
        let named : profile_of t ≟ name ≡ false = ground arith in
        let (to, from) = requeue-Has profile_of name ts q j in
        rw named (
          λ h. elim (to h) [
            | inl (u, among, names, keyed) ↦ inl (u, inr among, names, keyed)
            | inr before ↦ inr before
          ],
          λ s. elim s [
            | inl (u, inl first, names, keyed) ↦ absurd (other (ap profile_of (sym first) ∙ names))
            | inl (u, inr among, names, keyed) ↦ from (inl (u, among, names, keyed))
            | inr before ↦ from (inr before)
          ],
        )
  ]

  requeue_listed-Has :
      (profile_of : Target → Text) (profile : Key) (m : Result E (List Target)) (q : Q) (j : Key)
      → list_targets profile.namespace ≡ m
      → Has (requeue_listed list_targets add profile_of profile.name m q) j
        ↔ (IsUser list_targets profile_of profile j ⊎ Has q j)
  unfolding requeue_listed
  requeue_listed-Has profile_of profile (err e) q j listed = (
    λ h. inr h,
    λ s. elim s [ inl user ↦ let wrong = sym listed ∙ user.listed in cc | inr h ↦ h ],
  )
  requeue_listed-Has profile_of profile (ok ts) q j listed =
      let (to, from) = requeue-Has profile_of profile.name ts q j in
      (
        λ h. elim (to h) [
          | inl (t, among, names, keyed) ↦ inl (record {
            targets = ts;
            listed = listed;
            target = t;
            among = among;
            names = names;
            has_key = keyed;
          })
          | inr before ↦ inr before
        ],
        λ s. elim s [
          | inl user ↦
              let same : user.targets ≡ ts = cc in
              from (
                inl (
                  user.target,
                  subst (λ us. Among user.target us) same user.among,
                  user.names,
                  user.has_key,
                ))
          | inr before ↦ from (inr before)
        ],
      )

  -- After the update of a connection profile, the queue has what it had, and the targets of the
  -- profile's namespace that name it, of the old one and of the new one; nothing else.
  pub conn_update-Has :
      (old new : Key) (q : Q) (j : Key)
      → Has (conn_update list_targets add (connection_profile old) (connection_profile new) q) j ↔ (
          IsUser list_targets (λ t. t.spec.connection_profile) new j
          ⊎ IsUser list_targets (λ t. t.spec.connection_profile) old j
          ⊎ Has q j)
  unfolding conn_update conn_add
  conn_update-Has old new q j =
      both
        (requeue_listed-Has (λ t. t.spec.connection_profile) old (list_targets old.namespace) q j
          refl)
        (requeue_listed-Has (λ t. t.spec.connection_profile) new (list_targets new.namespace)
          (conn_add list_targets add (connection_profile old) q) j refl)

  -- The same of a sync profile.
  pub sync_update-Has :
      (old new : Key) (q : Q) (j : Key)
      → Has (sync_update list_targets add (sync_profile old) (sync_profile new) q) j ↔ (
          IsUser list_targets (λ t. t.spec.sync_profile) new j
          ⊎ IsUser list_targets (λ t. t.spec.sync_profile) old j
          ⊎ Has q j)
  unfolding sync_update sync_add
  sync_update-Has old new q j =
      both (requeue_listed-Has (λ t. t.spec.sync_profile) old (list_targets old.namespace) q j refl)
        (requeue_listed-Has (λ t. t.spec.sync_profile) new (list_targets new.namespace)
          (sync_add list_targets add (sync_profile old) q) j refl)
