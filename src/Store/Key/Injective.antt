-- ===== src/Store/Key/Injective.antt =====
-- When two keys have the same text.
use mathlib.Core.Path.{ap₂}
use mathlib.Core.List.{tail}
use apiserver_runtime_exampl.Base.{
  Text, ◌≡◌, refl, sym, ap, ◌≢◌, [], ◌∷◌, ◌++◌, arith, is_nil-ne, All,
}
use apiserver_runtime_exampl.Store.Key.{Key, key_string, get_name_key}

-- A namespace is a DNS label: it holds no dot.
abbrev pub HasNoDot : Text → Type 0
HasNoDot = All (λ c. c ≢ b'.')

split_at_dot :
    (s t u v : Text) → HasNoDot s → HasNoDot t → s ++ b'.' ∷ u ≡ t ++ b'.' ∷ v → (s ≡ t) × (u ≡ v)
split_at_dot [] [] u v p q e = (refl, ground arith)
split_at_dot [] (c ∷ t) u v p (first, _) e = absurd (first (ground arith))
split_at_dot (c ∷ s) [] u v (first, _) q e = absurd (first (ground arith))
split_at_dot (c ∷ s) (d ∷ t) u v (_, p) (_, q) e =
    let (same, rest) = split_at_dot s t u v p q (ap tail e) in (ap₂ ◌∷◌ (ground arith) same, rest)

-- Two namespaced keys with dot-free namespaces have the same text only if they are the same.
pub key_string-injective :
    (a b : Key)
    → a.namespace ≢ []
    → b.namespace ≢ []
    → HasNoDot a.namespace
    → HasNoDot b.namespace
    → key_string a ≡ key_string b
    → a ≡ b
unfolding key_string
key_string-injective a b na nb p q e =
    let (spaces, names) =
      split_at_dot a.namespace b.namespace a.name b.name p q
        (ground (arith, is_nil-ne a.namespace na, is_nil-ne b.namespace nb)) in
    λ i. record { namespace = spaces i; name = names i }

-- The text of a key with a namespace is also the text of another key, the cluster-scoped one whose
-- name is that text.
pub key_string_collision :
    (a : Key)
    → a.namespace ≢ []
    → (key_string (get_name_key (key_string a)) ≡ key_string a) × (get_name_key (key_string a) ≢ a)
unfolding key_string get_name_key
key_string_collision a h = (refl, λ e. h (ap (λ k. k.namespace) (sym e)))
