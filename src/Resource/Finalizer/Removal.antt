-- ===== src/Resource/Finalizer/Removal.antt =====
-- `RemoveFinalizer` of a finalizer that occurs once at most.
use apiserver_runtime_exampl.Base.{
  ℕ, zero, suc, ◌+◌, ◌-◌, ◌≤◌, ◌≡◌, refl, sym, ap, ◌∙◌, ◌≢◌, true, List, [], ◌∷◌, ◌++◌,
  append_assoc, append-nil, arith, Text, length, length-append, take, leb, if◌then◌else◌, All,
  count, text_eq, ◌≟◌, ≟_refl, ≟_ne, done,
}
use apiserver_runtime_exampl.Resource.Finalizer.{
  Slice, move_down, cut, step, remove_loop, remove_finalizer,
}
use apiserver_runtime_exampl.Resource.Finalizer.MoveDown.{
  get_elem?-length_append, move_down-first, move_down-append, All-snoc, take-length_append,
}

-- The list without the finalizer.
abbrev pub without : Text → List Text → List Text
without fin [] = []
without fin (e ∷ fs) = if e ≟ fin then without fin fs else e ∷ without fin fs

-- An element that is not the finalizer is passed over.
pub remove_loop-pass :
    (fin : Text) (pre : List Text) (y : Text) (ys : List Text) (n k : ℕ)
    → y ≢ fin
    → remove_loop fin (record { array = pre ++ y ∷ ys; len = n }) (length pre) (suc k)
      ≡ remove_loop fin
          (record { array = (pre ++ y ∷ []) ++ ys; len = n })
          (length (pre ++ y ∷ []))
          k
unfolding remove_loop step
remove_loop-pass fin pre y ys n k h =
    let next : length (pre ++ y ∷ []) ≡ suc (length pre) =
      omega (arith, length-append pre (y ∷ [])) in
    rw (get_elem?-length_append pre y ys, ≟_ne y fin h, next, append_assoc pre (y ∷ []) ys)

-- So are all, where none of them is.
remove_loop-keep :
    (fin : Text) (pre ys : List Text) (n k : ℕ)
    → All (λ e. e ≢ fin) ys
    → k ≤ length ys
    → remove_loop fin (record { array = pre ++ ys; len = n }) (length pre) k
      ≡ done (record { array = pre ++ ys; len = n })
remove_loop-keep fin pre ys n zero h le = unfold remove_loop in refl
remove_loop-keep fin pre [] n (suc k) h le = absurd (omega arith)
remove_loop-keep fin pre (y ∷ ys) n (suc k) (h, hs) le =
    remove_loop-pass fin pre y ys n k h
    ∙ remove_loop-keep fin (pre ++ y ∷ []) ys n k hs (omega arith)
    ∙ rw (append_assoc pre (y ∷ []) ys)

without-keep : (fin : Text) (ys : List Text) → All (λ e. e ≢ fin) ys → without fin ys ≡ ys
without-keep fin [] h = refl
without-keep fin (y ∷ ys) (h, hs) = rw (≟_ne y fin h, without-keep fin ys hs)

count-none : (fin : Text) (ys : List Text) → count fin ys ≤ 0 → All (λ e. e ≢ fin) ys
count-none fin [] h = tt
count-none fin (y ∷ ys) h = elim (text_eq.dec y fin) [
  | yes e ↦ absurd (ground arith)
  | no e ↦ (e, count-none fin ys (ground arith))
]

-- At the finalizer the loop cuts it out and goes on.
remove_loop-found :
    (fin : Text) (pre ys a : List Text) (n k : ℕ)
    → n ≡ length pre + suc (length ys)
    → move_down 0 (suc (length ys)) (fin ∷ ys) ≡ a
    → remove_loop fin (record { array = pre ++ fin ∷ ys; len = n }) (length pre) (suc k)
      ≡ remove_loop fin
          (record { array = pre ++ a; len = length pre + length ys })
          (suc (length pre))
          k
unfolding remove_loop step cut
remove_loop-found fin pre ys a n k e moved =
    let inside : leb (suc (length pre)) n ≡ true = ground arith in
    let less : n - 1 ≡ length pre + length ys = omega arith in
    rw (
      get_elem?-length_append pre fin ys,
      ≟_refl fin,
      inside,
      move_down-append pre (fin ∷ ys) (suc (length ys)) n e,
      moved,
      less,
    )

-- With no second finalizer behind it the rest is kept.
remove_loop-once :
    (fin : Text) (pre ys : List Text) (n : ℕ)
    → n ≡ length pre + suc (length ys)
    → All (λ e. e ≢ fin) ys
    → (a : List Text) × (remove_loop fin
          (record { array = pre ++ fin ∷ ys; len = n })
          (length pre)
          (suc (length ys))
        ≡ done (record { array = (pre ++ ys) ++ a; len = length pre + length ys }))
unfolding move_down remove_loop
remove_loop-once fin pre [] n e h =
    (fin ∷ [], remove_loop-found fin pre [] (fin ∷ []) n 0 e refl ∙ rw (append-nil pre))
remove_loop-once fin pre (y ∷ ys) n e (h, hs) =
    let (z, moved, ne) = move_down-first (λ x. x ≢ fin) y ys hs h in
    let next : suc (length pre) ≡ length (pre ++ y ∷ []) =
      omega (arith, length-append pre (y ∷ [])) in
    let kept =
      remove_loop-keep fin (pre ++ y ∷ []) (ys ++ z ∷ []) (length pre + length (y ∷ ys))
        (suc (length ys)) (All-snoc _ ys z hs ne) (omega (arith, length-append ys (z ∷ []))) in
    (
      z ∷ [],
      remove_loop-found fin pre (y ∷ ys) (y ∷ ys ++ z ∷ []) n (suc (length ys)) e (ap (◌∷◌ y) moved)
          ∙ (rw (sym next, append_assoc pre (y ∷ []) (ys ++ z ∷ [])) at kept)
          ∙ ap (λ a. done (record { array = a; len = length pre + length (y ∷ ys) }))
              (sym (append_assoc pre (y ∷ ys) (z ∷ []))),
    )

remove_loop-without :
    (fin : Text) (pre ys : List Text) (n : ℕ)
    → n ≡ length pre + length ys
    → count fin ys ≤ 1
    → (f : Slice) × (remove_loop fin
          (record { array = pre ++ ys; len = n })
          (length pre)
          (length ys)
        ≡ done f)
      × (take f.len f.array ≡ pre ++ without fin ys)
remove_loop-without fin pre [] n e h = (
  record { array = pre ++ []; len = n },
  unfold remove_loop in refl,
  take-length_append pre [] n (omega arith) ∙ sym (append-nil pre),
)
remove_loop-without fin pre (y ∷ ys) n e h = elim (text_eq.dec y fin) [
  | yes same ↦
      let hs = count-none fin ys (ground (arith, same)) in
      let (a, ran) = remove_loop-once fin pre ys n e hs in
      (
        record { array = (pre ++ ys) ++ a; len = length pre + length ys },
        rw same ran,
        take-length_append (pre ++ ys) a _ (sym (length-append pre ys))
            ∙ rw (same, ≟_refl fin, without-keep fin ys hs),
      )
  | no ne ↦
      let (f, ran, kept) =
        remove_loop-without fin (pre ++ y ∷ []) ys n (omega (arith, length-append pre (y ∷ [])))
          (ground arith) in
      (
        f,
        remove_loop-pass fin pre y ys n (length ys) ne ∙ ran,
        kept ∙ append_assoc pre (y ∷ []) (without fin ys) ∙ rw (≟_ne y fin ne),
      )
]

-- A finalizer that occurs at most once is removed, and the others keep their order.
pub remove_finalizer-without :
    (fs : List Text) (fin : Text)
    → count fin fs ≤ 1
    → remove_finalizer fs fin ≡ done (without fin fs)
unfolding remove_finalizer
remove_finalizer-without fs fin h =
    let (f, ran, kept) = remove_loop-without fin [] fs (length fs) (omega arith) h in rw (ran, kept)
