-- ===== src/Generator/ModuleRoot.antt =====
-- tools/apiserver-runtime-gen/main.go, `findModuleRoot`: the loop ends at the root.
use apiserver_runtime_exampl.Base.{
  ℕ, zero, suc, ◌<◌, arith, ◌≡◌, refl, inl, inr, Bool-cases, Bool, true, some, List, [], ◌∷◌, Text,
  codes, length, All, text_eq, ≟_refl, ≟_ne, if◌then◌else◌,
}
use apiserver_runtime_exampl.Os.Paths.{path_of, join}
use apiserver_runtime_exampl.Os.Paths.Components.{IsPlain}
use apiserver_runtime_exampl.Os.Paths.Parents.{dir-path_of, dir-root, path_of-ne}
use apiserver_runtime_exampl.Os.Files.{Files, stat}
use apiserver_runtime_exampl.Generator.{find_module_root}

-- Whether a directory holds a `go.mod`.
abbrev pub has_mod : Files → Text → Bool
has_mod disk d = stat disk (join (d ∷ codes "go.mod" ∷ []))

-- The nearest directory with a `go.mod`, from the components of a path, the last one first.
abbrev pub nearest : Files → List Text → Text
nearest disk [] = if has_mod disk (path_of true []) then path_of true [] else []
nearest disk (d ∷ stack) =
    if has_mod disk (path_of true (d ∷ stack)) then path_of true (d ∷ stack) else nearest disk stack

-- From an absolute path, one turn for each of its components and one for the root are enough: the
-- result is the path itself or the nearest of its ancestors with a `go.mod`, and the empty text if
-- there is none.
pub find_module_root-nearest :
    (disk : Files) (n : ℕ) (stack : List Text)
    → All IsPlain stack
    → length stack < n
    → find_module_root disk n (path_of true stack) ≡ some (nearest disk stack)
unfolding find_module_root
find_module_root-nearest disk zero stack _ short = absurd (omega arith)
find_module_root-nearest disk (suc n) [] _ short =
    elim (Bool-cases (has_mod disk (path_of true []))) [
      | inl there ↦ rw there refl
      | inr missing ↦ rw (missing, dir-root, ≟_refl (path_of true [])) refl
    ]
find_module_root-nearest disk (suc n) (d ∷ stack) (p, ps) short =
    elim (Bool-cases (has_mod disk (path_of true (d ∷ stack)))) [
      | inl there ↦ rw there refl
      | inr missing ↦
          rw
            (
              missing,
              dir-path_of d stack (p, ps),
              ≟_ne (path_of true stack) (path_of true (d ∷ stack)) (path_of-ne d stack p.nonempty),
            )
            (find_module_root-nearest disk n stack ps (omega arith))
    ]
