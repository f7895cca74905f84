-- ===== src/Resource/Finalizer.antt =====
-- pkg/reconcilers/resource: finalizer.go and errors.go. The list of finalizers is a Go slice that
-- `RemoveFinalizer` overwrites while it ranges over it.
pub mod MoveDown
pub mod Removal
pub mod Repeated
pub mod Api
mod Tests
use apiserver_runtime_exampl.Base.{
  ℕ, zero, suc, ◌-◌, Bool, true, false, not, Option, some, none, List, [], ◌∷◌, ◌++◌, Text, length,
  take, get_elem?, leb, if◌then◌else◌, contains, text_eq, ◌≟◌, Outcome, ◌>>=◌, done, panicked,
}

-- A slice whose capacity is `length array`.
pub record Slice : Type 0 where
  pub array : List Text
  pub len : ℕ

-- `copy(a[i:], a[i+1:n])`: the elements behind `i` and before `n` move one place down; the places
-- from `n - 1` on keep what they hold.
unfoldable pub move_down : ℕ → ℕ → List Text → List Text
move_down i n [] = []
move_down zero n (x ∷ []) = x ∷ []
move_down zero zero (x ∷ y ∷ a) = x ∷ y ∷ a
move_down zero (suc zero) (x ∷ y ∷ a) = x ∷ y ∷ a
move_down zero (suc (suc n)) (x ∷ y ∷ a) = y ∷ move_down zero (suc n) (y ∷ a)
move_down (suc i) zero (x ∷ a) = x ∷ a
move_down (suc i) (suc n) (x ∷ a) = x ∷ move_down i n a

-- `append(f[:i], f[i+1:]...)`, in place; `f[i+1:]` panics behind the length.
unfoldable pub cut : Slice → ℕ → Outcome Slice
unfolding move_down
cut f i =
    if leb (suc i) f.len
    then done (record { array = move_down i f.len f.array; len = f.len - 1 })
    else panicked

step : Text → Slice → ℕ → Option Text → Outcome Slice
step fin f i none = panicked
step fin f i (some e) = if e ≟ fin then cut f i else done f

-- The range over the array, `k` elements from `i` on; each is read when its turn comes.
unfoldable pub remove_loop : Text → Slice → ℕ → ℕ → Outcome Slice
unfolding step cut
remove_loop fin f i zero = done f
remove_loop fin f i (suc k) =
    step fin f i (get_elem? f.array i) >>= λ f'. remove_loop fin f' (suc i) k

-- `RemoveFinalizer`: the object's finalizers, before and after.
unfoldable pub remove_finalizer : List Text → Text → Outcome (List Text)
unfolding remove_loop
remove_finalizer fs fin =
    remove_loop fin (record { array = fs; len = length fs }) 0 (length fs) >>= λ f.
    done (take f.len f.array)

-- `FinalizerExists`
unfoldable pub finalizer_exists : List Text → Text → Bool
finalizer_exists [] fin = false
finalizer_exists (e ∷ fs) fin = if e ≟ fin then true else finalizer_exists fs fin

-- `AddFinalizer`
unfoldable pub add_finalizer : List Text → Text → List Text
unfolding finalizer_exists
add_finalizer fs fin = if finalizer_exists fs fin then fs else fs ++ fin ∷ []
