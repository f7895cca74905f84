-- ===== src/Reconciler/Servers/Selection.antt =====
-- Which data server is selected.
use apiserver_runtime_exampl.Base.{
  ℕ, ◌≡◌, refl, ap, ◌≢◌, Option, none, some, [], ◌∷◌, arith, All, Dict, lookup, All-lookup, done,
  panicked, Result, ℕ_discrete,
}
use apiserver_runtime_exampl.Store.Key.{Key, key_eq}
use apiserver_runtime_exampl.Store.Memory
use apiserver_runtime_exampl.Store.Memory.{Mem, visit}
use apiserver_runtime_exampl.Store.Memory.Refines.{view, IsStore}
use apiserver_runtime_exampl.Reconciler.Servers.{
  DsContext, fewer, visit_server, selected_server, connected, select_with,
  select_data_server_context,
}

abbrev State : Type 0 → Type 0 → Type 0
State C S = Option (DsContext C S) × Option ℕ

abbrev none_yet : {C S : Type 0} → State C S
none_yet = (none, none)

module _ {C S : Type 0} (size : S → ℕ) where
  abbrev loop : Dict Key (DsContext C S) → State C S → State C S
  loop entries s = visit (some (λ k d s. visit_server size d s)) entries s

  -- Where all data servers have targets, none is selected.
  loop-none :
      (entries : Dict Key (DsContext C S))
      → All (λ e. size e.1.targets ≢ 0) entries
      → loop entries none_yet ≡ none_yet
  unfolding visit visit_server fewer
  loop-none [] h = refl
  loop-none ((k, d) ∷ entries) (h, hs) = ground (arith, loop-none entries hs)

  module _ (P : DsContext C S → Type 0) where
    -- A data server without targets is selected, one of those that `P` holds of.
    abbrev IsFound : State C S → Type 0
    IsFound s = (d : DsContext C S) × (s ≡ (some d, some 0)) × (size d.targets ≡ 0) × P d

    visit-empty :
        (x : DsContext C S) (s : State C S)
        → P x
        → size x.targets ≡ 0
        → IsFound (visit_server size x s)
    unfolding visit_server
    visit-empty x s h empty = (x, ground (arith, empty), empty, h)

    visit-crowded :
        (x : DsContext C S) (s : State C S)
        → size x.targets ≢ 0
        → IsFound s
        → visit_server size x s ≡ s
    unfolding visit_server fewer
    visit-crowded x s ne (d, e, _, _) = ground (arith, e, ne)

    loop-IsFound :
        (entries : Dict Key (DsContext C S)) (s : State C S)
        → All (λ e. P e.1) entries
        → IsFound s
        → IsFound (loop entries s)
    unfolding visit
    loop-IsFound [] s h f = f
    loop-IsFound ((k, d) ∷ entries) s (h, hs) f = elim (ℕ_discrete (size d.targets) 0) [
      | yes empty ↦ loop-IsFound entries (visit_server size d s) hs (visit-empty d s h empty)
      | no ne ↦ rw (visit-crowded d s ne f) (loop-IsFound entries s hs f)
    ]

    -- If one of them has no targets, a data server is selected.
    loop_start-IsFound :
        (entries : Dict Key (DsContext C S)) (k : Key) (d : DsContext C S)
        → All (λ e. P e.1) entries
        → lookup k entries ≡ some d
        → size d.targets ≡ 0
        → IsFound (loop entries none_yet)
    unfolding visit lookup visit_server fewer
    loop_start-IsFound [] k d h there empty = cc
    loop_start-IsFound ((j, x) ∷ entries) k d (h, hs) there empty =
        elim (ℕ_discrete (size x.targets) 0) [
          | yes none_there ↦
              loop-IsFound entries (visit_server size x none_yet) hs
                (visit-empty x none_yet h none_there)
          | no ne ↦
              let kept : visit_server size x none_yet ≡ none_yet = ground arith in
              rw kept (loop_start-IsFound entries k d hs (ground arith) empty)
        ]

  module _ {W E : Type 0} (new_client : C → Result E ℕ) (start : W → ℕ → W × Option E)
      (r : Mem (DsContext C S)) (w : W) (v : IsStore r) where
    -- If each of the registered data servers has a target, the selection panics.
    pub select_crowded :
        ((k : Key) (d : DsContext C S) → view r k ≡ some d → size d.targets ≢ 0)
        → select_data_server_context size new_client start w r ≡ panicked
    unfolding select_data_server_context selected_server select_with Memory.list
    select_crowded crowded =
        let all =
          All-lookup (λ (e : Key × DsContext C S). size e.1.targets ≢ 0) r.db v.unique crowded in
        ap (λ s. select_with size new_client start w s.0) (loop-none r.db all)

    -- If one of the registered data servers has no target, one of those is selected, and the result is
    -- that of connecting to it.
    pub select_empty :
        (k : Key) (d : DsContext C S)
        → view r k ≡ some d
        → size d.targets ≡ 0
        → (j : Key) × (x : DsContext C S) × (view r j ≡ some x)
          × (size x.targets ≡ 0)
          × (select_data_server_context size new_client start w r
              ≡ done (connected size new_client start w x x.client))
    unfolding select_data_server_context selected_server select_with Memory.list
    select_empty k d there empty =
        let P : DsContext C S → Type 0 = λ x. (j : Key) × (view r j ≡ some x) in
        let all =
          All-lookup (λ (e : Key × DsContext C S). P e.1) r.db v.unique (λ j x found. (j, found)) in
        let (x, e, none_there, (j, found)) = loop_start-IsFound P r.db k d all there empty in
        (j, x, found, none_there, ap (λ s. select_with size new_client start w s.0) e)
