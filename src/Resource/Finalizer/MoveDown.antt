-- ===== src/Resource/Finalizer/MoveDown.antt =====
-- What `copy` leaves where, when it moves the end of a list down by one place.
use apiserver_runtime_exampl.Base.{
  ℕ, zero, suc, ◌+◌, ◌≤◌, ◌≡◌, refl, ap, some, List, [], ◌∷◌, ◌++◌, arith, Text, length, take,
  get_elem?, All, text_eq,
}
use apiserver_runtime_exampl.Resource.Finalizer.{move_down}

-- The place of the last element, and those behind it, are not written.
pub get_elem?-move_down :
    (i n j : ℕ) (a : List Text) → n ≤ suc j → get_elem? (move_down i n a) j ≡ get_elem? a j
unfolding move_down
get_elem?-move_down i n j [] h = refl
get_elem?-move_down zero n j (x ∷ []) h = refl
get_elem?-move_down zero zero j (x ∷ y ∷ a) h = refl
get_elem?-move_down zero (suc zero) j (x ∷ y ∷ a) h = refl
get_elem?-move_down zero (suc (suc n)) zero (x ∷ y ∷ a) h = absurd (omega arith)
get_elem?-move_down zero (suc (suc n)) (suc j) (x ∷ y ∷ a) h =
    get_elem?-move_down zero (suc n) j (y ∷ a) (omega arith)
get_elem?-move_down (suc i) zero j (x ∷ a) h = refl
get_elem?-move_down (suc i) (suc n) zero (x ∷ a) h = refl
get_elem?-move_down (suc i) (suc n) (suc j) (x ∷ a) h = get_elem?-move_down i n j a (omega arith)

pub get_elem?-length_append :
    (pre : List Text) (y : Text) (ys : List Text) → get_elem? (pre ++ y ∷ ys) (length pre) ≡ some y
get_elem?-length_append [] y ys = refl
get_elem?-length_append (x ∷ pre) y ys = get_elem?-length_append pre y ys

-- Moving down over the first place: the last element stays behind a second time.
pub move_down-first :
    (P : Text → Type 0) (x : Text) (ys : List Text)
    → All P ys
    → P x
    → (z : Text) × (move_down 0 (suc (length ys)) (x ∷ ys) ≡ ys ++ z ∷ []) × P z
unfolding move_down
move_down-first P x [] h p = (x, refl, p)
move_down-first P x (y ∷ ys) (q, h) p =
    let (z, e, r) = move_down-first P y ys h q in (z, ap (◌∷◌ y) e, r)

pub move_down-append :
    (xs ys : List Text) (n m : ℕ)
    → m ≡ length xs + n
    → move_down (length xs) m (xs ++ ys) ≡ xs ++ move_down 0 n ys
unfolding move_down
move_down-append [] ys n m e = let same : m ≡ n = omega arith in ap (λ i. move_down 0 i ys) same
move_down-append (x ∷ xs) ys n zero e = absurd (omega arith)
move_down-append (x ∷ xs) ys n (suc m) e = ap (◌∷◌ x) (move_down-append xs ys n m (omega arith))

pub All-snoc :
    (P : Text → Type 0) (xs : List Text) (x : Text) → All P xs → P x → All P (xs ++ x ∷ [])
All-snoc P [] x h p = (p, tt)
All-snoc P (y ∷ xs) x (q, h) p = (q, All-snoc P xs x h p)

pub take-length_append : (xs ys : List Text) (n : ℕ) → n ≡ length xs → take n (xs ++ ys) ≡ xs
take-length_append [] ys n e = rw e
take-length_append (x ∷ xs) ys n e = rw e (ap (◌∷◌ x) (take-length_append xs ys (length xs) refl))
