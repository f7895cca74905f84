-- ===== src/Generator/InputBase.antt =====
-- tools/apiserver-runtime-gen/main.go, `findInputBase`: the base of versions below `apis`.
use apiserver_runtime_exampl.Base.{
  ◌≡◌, refl, sym, ap, ◌∙◌, subst, Bool, true, false, List, [], ◌∷◌, ◌++◌, append_assoc, arith, Text,
  codes, All, has_prefix,
}
use apiserver_runtime_exampl.Os.Paths.{slashed, join}
use apiserver_runtime_exampl.Os.Paths.Components.{
  IsPlain, long-IsPlain, path, join-path, slashed-append,
}
use apiserver_runtime_exampl.Generator.{all_has_prefix, all_trim_prefix, find_input_base}

-- A prefix of a prefix.
has_prefix-short : (v p q : Text) → has_prefix v (p ++ q) ≡ true → has_prefix v p ≡ true
has_prefix-short v [] q h = refl
has_prefix-short [] (x ∷ p) q h = h
has_prefix-short (y ∷ v) (x ∷ p) q h = ground (arith, has_prefix-short v p q)

-- Two prefixes do not differ in a character.
has_prefix-apart :
    (v p : Text) → has_prefix v (p ++ codes "s") ≡ true → has_prefix v (p ++ codes "/") ≡ false
has_prefix-apart [] [] h = cc
has_prefix-apart (y ∷ v) [] h = ground arith
has_prefix-apart [] (x ∷ p) h = cc
has_prefix-apart (y ∷ v) (x ∷ p) h = ground (arith, has_prefix-apart v p)

all_has_prefix-short :
    (p q : Text) (vs : List Text) → all_has_prefix (p ++ q) vs ≡ true → all_has_prefix p vs ≡ true
unfolding all_has_prefix
all_has_prefix-short p q [] h = refl
all_has_prefix-short p q (v ∷ vs) h =
    ground (arith, has_prefix-short v p q, all_has_prefix-short p q vs)

all_trim_prefix-apart :
    (p : Text) (vs : List Text)
    → all_has_prefix (p ++ codes "s") vs ≡ true
    → all_trim_prefix (p ++ codes "/") vs ≡ vs
unfolding all_trim_prefix all_has_prefix
all_trim_prefix-apart p [] h = refl
all_trim_prefix-apart p (v ∷ vs) h =
    ground (arith, has_prefix-apart v p, all_trim_prefix-apart p vs)

path_snoc :
    (b : Bool) (c d : Text) (cs : List Text)
    → path b ((c ∷ cs) ++ d ∷ []) ≡ path b (c ∷ cs) ++ b'/' ∷ d
unfolding slashed
path_snoc true c d cs = ap (λ x. b'/' ∷ x) (sym (slashed-append c d cs []))
path_snoc false c d cs = sym (slashed-append c d cs [])

-- `apis` under a module is a longer text than `api`.
join-apis :
    (b : Bool) (c : Text) (cs : List Text)
    → All IsPlain (c ∷ cs)
    → join (path b (c ∷ cs) ∷ codes "apis" ∷ [])
      ≡ join (path b (c ∷ cs) ∷ codes "api" ∷ []) ++ codes "s"
join-apis b c cs ps =
    join-path b c (codes "apis") cs [] ps (long-IsPlain (codes "apis") refl (omega arith), tt)
    ∙ path_snoc b c (codes "apis") cs
    ∙ sym (append_assoc (path b (c ∷ cs)) (b'/' ∷ codes "api") (codes "s"))
    ∙ ap (λ x. x ++ codes "s")
        (sym (
          join-path b c (codes "api") cs [] ps (long-IsPlain (codes "api") refl (omega arith), tt)
          ∙ path_snoc b c (codes "api") cs))

-- Versions that stand below `apis` of the module are taken for versions below `api`, whose name is
-- a prefix of it: the base is `api`, and nothing is stripped from the versions.
pub find_input_base-apis :
    (b : Bool) (c : Text) (cs versions : List Text)
    → All IsPlain (c ∷ cs)
    → all_has_prefix (join (path b (c ∷ cs) ∷ codes "apis" ∷ [])) versions ≡ true
    → find_input_base (path b (c ∷ cs)) versions
      ≡ (join (path b (c ∷ cs) ∷ codes "api" ∷ []), versions, true)
unfolding find_input_base
find_input_base-apis b c cs versions ps below =
    let base = join (path b (c ∷ cs) ∷ codes "api" ∷ []) in
    let longer : all_has_prefix (base ++ codes "s") versions ≡ true =
      subst (λ x. all_has_prefix x versions ≡ true) (join-apis b c cs ps) below in
    rw (all_has_prefix-short base (codes "s") versions longer)
      (ap (λ x. (base, x, true)) (all_trim_prefix-apart base versions longer))
