-- ===== src/Resource/Finalizer/Repeated.antt =====
-- `RemoveFinalizer` of a finalizer that occurs several times.
use apiserver_runtime_exampl.Base.{
  ℕ, zero, suc, ◌+◌, ◌-◌, ◌≤◌, ◌≡◌, sym, ap, ◌∙◌, inl, inr, true, false, some, List, [], ◌∷◌, ◌++◌,
  append_assoc, arith, Text, length, length-append, get_elem?, leb, contains, get_elem?-append_self,
  text_eq, ≟_refl, ≟_ne, panicked, Option-cases, Bool-cases,
}
use apiserver_runtime_exampl.Resource.Finalizer.{
  move_down, cut, step, remove_loop, remove_finalizer,
}
use apiserver_runtime_exampl.Resource.Finalizer.MoveDown.{
  get_elem?-move_down, get_elem?-length_append,
}
use apiserver_runtime_exampl.Resource.Finalizer.Removal.{remove_loop-pass}

-- With less of the slice left than the place of the last element, and the finalizer there, the loop
-- ends in a panic.
remove_loop-panics :
    (fin : Text) (a : List Text) (n i k : ℕ)
    → n ≤ i + k
    → get_elem? a (i + k) ≡ some fin
    → remove_loop fin (record { array = a; len = n }) i (suc k) ≡ panicked
unfolding remove_loop step cut
remove_loop-panics fin a n i zero h last =
    let here : i + 0 ≡ i = omega arith in
    let outside : leb (suc i) n ≡ false = ground arith in
    rw (ap (get_elem? a) (sym here) ∙ last, ≟_refl fin, outside)
remove_loop-panics fin a n i (suc k) h last =
    let next : i + suc k ≡ suc i + k = omega arith in
    let there = ap (get_elem? a) (sym next) ∙ last in
    elim (Option-cases (get_elem? a i)) [
      | inl e ↦ rw e
      | inr (y, e) ↦ elim (text_eq.dec y fin) [
        | no ne ↦ rw (e, ≟_ne y fin ne) (remove_loop-panics fin a n (suc i) k (omega arith) there)
        | yes same ↦ elim (Bool-cases (leb (suc i) n)) [
          | inl inside ↦
              rw (e, same, ≟_refl fin, inside)
                (remove_loop-panics fin (move_down i n a) (n - 1) (suc i) k (omega arith)
                  (get_elem?-move_down i n (suc i + k) a (omega arith) ∙ there))
          | inr outside ↦ rw (e, same, ≟_refl fin, outside)
        ]
      ]
    ]

-- The first of several finalizers is cut out in place; then the last one is met behind the end.
remove_loop-twice_found :
    (fin : Text) (pre ys : List Text)
    → remove_loop fin
        (record {
          array = pre ++ (fin ∷ (ys ++ fin ∷ []));
          len = length pre + suc (suc (length ys));
        })
        (length pre)
        (suc (suc (length ys)))
      ≡ panicked
unfolding remove_loop step cut
remove_loop-twice_found fin pre ys =
    let i = length pre in
    let n = i + suc (suc (length ys)) in
    let a = pre ++ (fin ∷ (ys ++ fin ∷ [])) in
    let inside : leb (suc i) n ≡ true = ground arith in
    let place : length (pre ++ fin ∷ ys) ≡ suc i + length ys =
      omega (arith, length-append pre (fin ∷ ys)) in
    let last : get_elem? a (suc i + length ys) ≡ some fin =
      ap (get_elem? a) (sym place)
      ∙ ap (λ l. get_elem? l (length (pre ++ fin ∷ ys)))
          (sym (append_assoc pre (fin ∷ ys) (fin ∷ [])))
      ∙ get_elem?-append_self (pre ++ fin ∷ ys) fin in
    rw (get_elem?-length_append pre fin (ys ++ fin ∷ []), ≟_refl fin, inside)
      (remove_loop-panics fin (move_down i n a) (n - 1) (suc i) (length ys) (omega arith)
        (get_elem?-move_down i n (suc i + length ys) a (omega arith) ∙ last))

remove_loop-twice :
    (fin : Text) (pre ys : List Text)
    → contains ys fin ≡ true
    → remove_loop fin
        (record { array = pre ++ (ys ++ fin ∷ []); len = length pre + suc (length ys) })
        (length pre)
        (suc (length ys))
      ≡ panicked
remove_loop-twice fin pre [] h = cc
remove_loop-twice fin pre (y ∷ ys) h = elim (text_eq.dec y fin) [
  | yes same ↦ rw same (remove_loop-twice_found fin pre ys)
  | no ne ↦
      let shifted : length (pre ++ y ∷ []) + suc (length ys) ≡ length pre + suc (suc (length ys)) =
        omega (arith, length-append pre (y ∷ [])) in
      remove_loop-pass fin pre y (ys ++ fin ∷ []) (length pre + suc (suc (length ys)))
        (suc (length ys)) ne
      ∙ ap
          (λ n.
            remove_loop fin (record { array = (pre ++ y ∷ []) ++ (ys ++ fin ∷ []); len = n })
              (length (pre ++ y ∷ [])) (suc (length ys)))
          (sym shifted)
      ∙ remove_loop-twice fin (pre ++ y ∷ []) ys (ground arith)
]

-- If the last finalizer is the one to remove and it occurs before that too, `RemoveFinalizer`
-- panics.
pub remove_finalizer_twice :
    (fs : List Text) (fin : Text)
    → contains fs fin ≡ true
    → remove_finalizer (fs ++ fin ∷ []) fin ≡ panicked
unfolding remove_finalizer
remove_finalizer_twice fs fin h =
    let len : length (fs ++ fin ∷ []) ≡ suc (length fs) =
      omega (arith, length-append fs (fin ∷ [])) in
    let start : 0 + suc (length fs) ≡ suc (length fs) = omega arith in
    let panics = remove_loop-twice fin [] fs h in rw (len, rw start at panics)
