-- ===== src/Base/Strings.antt =====
-- What the source uses of Go's `strings` package, on texts as lists of code points.
use Prim.Native.Nat.{ℕ, zero, suc, ◌-◌}
use mathlib.Core.Bool.{Bool, true, false, ◌||◌, ◌&&◌}
use mathlib.Core.List.{List, [], ◌∷◌, ◌++◌}
use mathlib.Core.Option.{Option, none, some}
use apiserver_runtime_exampl.Base.Tests.{Text, if◌then◌else◌, ◌==◌, ltb}
use apiserver_runtime_exampl.Base.Lists.{length}

module _ {ℓ} {A : Type ℓ} where
  abbrev pub take : ℕ → List A → List A
  take zero xs = []
  take (suc n) [] = []
  take (suc n) (x ∷ xs) = x ∷ take n xs

  abbrev pub drop : ℕ → List A → List A
  drop zero xs = xs
  drop (suc n) [] = []
  drop (suc n) (x ∷ xs) = drop n xs

  -- `s[lo:hi]`
  abbrev pub slice : List A → ℕ → ℕ → List A
  slice xs lo hi = take (hi - lo) (drop lo xs)

-- `strings.Index(s, c)` for a text of one character; `none` is -1.
abbrev pub index : Text → ℕ → Option ℕ
index [] c = none
index (x ∷ xs) c =
    let rest : Option ℕ = elim (index xs c) [ none ↦ none | some i ↦ some (suc i) ] in
    if x == c then some 0 else rest

-- `strings.Contains(s, c)` for a text of one character.
abbrev pub has_char : Text → ℕ → Bool
has_char [] c = false
has_char (x ∷ xs) c = x == c || has_char xs c

-- `strings.HasSuffix(s, c)` for a text of one character.
abbrev pub ends_with : Text → ℕ → Bool
ends_with [] c = false
ends_with (x ∷ []) c = x == c
ends_with (x ∷ y ∷ xs) c = ends_with (y ∷ xs) c

abbrev pub cons_first {ℓ} : {A : Type ℓ} → A → List (List A) → List (List A)
cons_first x [] = (x ∷ []) ∷ []
cons_first x (s ∷ ss) = (x ∷ s) ∷ ss

-- `strings.Split(s, c)` for a text of one character.
abbrev pub split : Text → ℕ → List Text
split [] c = [] ∷ []
split (x ∷ xs) c = let rest = split xs c in if x == c then [] ∷ rest else cons_first x rest

-- `s < t` on strings; on valid UTF-8 the order of bytes is that of code points.
abbrev pub text_lt : Text → Text → Bool
text_lt [] [] = false
text_lt [] (y ∷ ys) = true
text_lt (x ∷ xs) [] = false
text_lt (x ∷ xs) (y ∷ ys) = ltb x y || (x == y && text_lt xs ys)

-- `strings.HasPrefix`, `strings.Contains` and `strings.HasSuffix`.
abbrev pub has_prefix : Text → Text → Bool
has_prefix xs [] = true
has_prefix [] (y ∷ ys) = false
has_prefix (x ∷ xs) (y ∷ ys) = x == y && has_prefix xs ys

abbrev pub has_text : Text → Text → Bool
has_text [] ys = has_prefix [] ys
has_text (x ∷ xs) ys = has_prefix (x ∷ xs) ys || has_text xs ys

abbrev pub same_text : Text → Text → Bool
same_text [] [] = true
same_text [] (y ∷ ys) = false
same_text (x ∷ xs) [] = false
same_text (x ∷ xs) (y ∷ ys) = x == y && same_text xs ys

abbrev pub has_suffix : Text → Text → Bool
has_suffix [] ys = same_text [] ys
has_suffix (x ∷ xs) ys = same_text (x ∷ xs) ys || has_suffix xs ys

-- `strings.TrimSuffix`
abbrev pub trim_suffix : Text → Text → Text
trim_suffix xs ys = if has_suffix xs ys then take (length xs - length ys) xs else xs

-- `strings.TrimPrefix` and `strings.Join`.
abbrev pub trim_prefix : Text → Text → Text
trim_prefix xs ys = if has_prefix xs ys then drop (length ys) xs else xs

abbrev pub join_with : List Text → Text → Text
join_with [] sep = []
join_with (x ∷ []) sep = x
join_with (x ∷ y ∷ xs) sep = x ++ sep ++ join_with (y ∷ xs) sep
