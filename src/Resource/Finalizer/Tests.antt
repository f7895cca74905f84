-- ===== src/Resource/Finalizer/Tests.antt =====
-- Runs of the finalizers, and the theorems about them at these runs.
use apiserver_runtime_exampl.Base.{
  ℕ, ◌+◌, ◌≡◌, refl, Option, none, [], ◌∷◌, ◌++◌, arith, Text, codes, done, panicked, text_eq,
  Text-discrete, ℕ_discrete,
}
use apiserver_runtime_exampl.Resource.Finalizer.{remove_finalizer}
use apiserver_runtime_exampl.Resource.Finalizer.Removal.{remove_finalizer-without}
use apiserver_runtime_exampl.Resource.Finalizer.Repeated.{remove_finalizer_twice}
use apiserver_runtime_exampl.Resource.Finalizer.Api.{Object}

abbrev a : Text
a = codes "a"

abbrev fin : Text
fin = codes "fin"

remove_finalizer-without_example : remove_finalizer (a ∷ fin ∷ a ∷ []) fin ≡ done (a ∷ a ∷ [])
unfolding text_eq ℕ_discrete Text-discrete
remove_finalizer-without_example = remove_finalizer-without (a ∷ fin ∷ a ∷ []) fin (omega arith)

remove_finalizer_twice_example : remove_finalizer ((fin ∷ a ∷ []) ++ fin ∷ []) fin ≡ panicked
unfolding text_eq ℕ_discrete Text-discrete
remove_finalizer_twice_example = remove_finalizer_twice (fin ∷ a ∷ []) fin refl

-- A copy of the finalizer stays behind where two stand side by side before others.
stays : remove_finalizer (fin ∷ fin ∷ a ∷ []) fin ≡ done (fin ∷ a ∷ [])
unfolding remove_finalizer text_eq ℕ_discrete Text-discrete
stays = refl

-- A client that counts its calls and answers with no error.
abbrev counting : ℕ → Object (Unit {0}) → ℕ × Object (Unit {0}) × Option Text
counting w o = (w + 1, o, none)

abbrev plain : Object (Unit {0})
plain = record { rest = tt; finalizers = a ∷ [] }

abbrev with_fin : Object (Unit {0})
with_fin = record { rest = tt; finalizers = a ∷ fin ∷ [] }
