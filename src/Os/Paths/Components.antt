-- ===== src/Os/Paths/Components.antt =====
-- Paths that are given by their components: what `Clean` and `Join` make of them.
use apiserver_runtime_exampl.Base.{
  ◌<◌, length, ◌≡◌, ◌≢◌, refl, sym, ap, ◌∙◌, append-nil, drop, Bool, true, false, List, [], ◌∷◌,
  ◌++◌, append_assoc, arith, Text, codes, is_nil, is_nil-ne, split, has_char, text_eq, All,
  All-append, ≟_ne,
}
use apiserver_runtime_exampl.Os.Paths.{
  slashed, clean_step, clean_stack, reverse_onto, is_rooted, path_of, clean, join,
}

-- A component that `Clean` keeps.
pub record IsPlain (c : Text) : Type 0 where
  pub nonempty : c ≢ []
  pub not_dot : c ≢ codes "."
  pub not_up : c ≢ codes ".."
  pub no_slash : has_char c b'/' ≡ false

pub long-IsPlain : (c : Text) → has_char c b'/' ≡ false → 2 < length c → IsPlain c
long-IsPlain c no_slash long = record {
  nonempty = λ e. let n = ap length e in omega arith;
  not_dot = λ e. let n = ap length e in omega arith;
  not_up = λ e. let n = ap length e in omega arith;
  no_slash = no_slash;
}

-- The path of components, absolute or relative.
abbrev pub path : Bool → List Text → Text
path true cs = b'/' ∷ slashed cs
path false cs = slashed cs

pub split-plain : (c : Text) → has_char c b'/' ≡ false → split c b'/' ≡ c ∷ []
split-plain [] h = refl
split-plain (x ∷ xs) h = ground (arith, split-plain xs)

pub split-slash :
    (c t : Text) → has_char c b'/' ≡ false → split (c ++ b'/' ∷ t) b'/' ≡ c ∷ split t b'/'
split-slash [] t h = refl
split-slash (x ∷ xs) t h = ground (arith, split-slash xs t)

-- The components come back.
split-slashed :
    (c : Text) (cs : List Text) → All IsPlain (c ∷ cs) → split (slashed (c ∷ cs)) b'/' ≡ c ∷ cs
unfolding slashed
split-slashed c [] (p, _) = split-plain c p.no_slash
split-slashed c (d ∷ cs) (p, ps) =
    split-slash c (slashed (d ∷ cs)) p.no_slash ∙ ap (◌∷◌ c) (split-slashed d cs ps)

pub clean_step-plain :
    (b : Bool) (stack : List Text) (c : Text) → IsPlain c → clean_step b stack c ≡ c ∷ stack
unfolding clean_step
clean_step-plain b stack c p =
    rw (is_nil-ne c p.nonempty, ≟_ne c (codes ".") p.not_dot, ≟_ne c (codes "..") p.not_up) refl

pub clean_stack-plain :
    (b : Bool) (stack cs : List Text)
    → All IsPlain cs
    → clean_stack b stack cs ≡ reverse_onto cs stack
unfolding clean_stack
clean_stack-plain b stack [] _ = refl
clean_stack-plain b stack (c ∷ cs) (p, ps) =
    rw (clean_step-plain b stack c p) (clean_stack-plain b (c ∷ stack) cs ps)

reverse_onto-twice :
    (cs acc ds : List Text) → reverse_onto (reverse_onto cs acc) ds ≡ reverse_onto acc (cs ++ ds)
reverse_onto-twice [] acc ds = refl
reverse_onto-twice (c ∷ cs) acc ds = reverse_onto-twice cs (c ∷ acc) ds

pub reverse_onto-back : (cs : List Text) → reverse_onto (reverse_onto cs []) [] ≡ cs
reverse_onto-back cs = reverse_onto-twice cs [] [] ∙ append-nil cs

path_of-reverse :
    (b : Bool) (c : Text) (cs : List Text) → path_of b (reverse_onto (c ∷ cs) []) ≡ path b (c ∷ cs)
unfolding path_of
path_of-reverse true c cs = ap (λ x. b'/' ∷ slashed x) (reverse_onto-back (c ∷ cs))
path_of-reverse false c cs =
    let back = reverse_onto-back (c ∷ cs) in
    rw
      (
        is_nil-ne (reverse_onto (c ∷ cs) [])
            (λ e. let none_left : c ∷ cs ≡ [] = sym back ∙ ap (λ x. reverse_onto x []) e in cc),
        back,
      )
      refl

is_rooted-slashed : (c : Text) (cs : List Text) → IsPlain c → is_rooted (slashed (c ∷ cs)) ≡ false
unfolding slashed
is_rooted-slashed [] cs p = absurd (p.nonempty refl)
is_rooted-slashed (x ∷ c) [] p = ground (arith, p.no_slash)
is_rooted-slashed (x ∷ c) (d ∷ cs) p = ground (arith, p.no_slash)

is_nil-slashed : (c : Text) (cs : List Text) → IsPlain c → is_nil (slashed (c ∷ cs)) ≡ false
unfolding slashed
is_nil-slashed [] cs p = absurd (p.nonempty refl)
is_nil-slashed (x ∷ c) [] p = refl
is_nil-slashed (x ∷ c) (d ∷ cs) p = refl

-- A path of plain components is clean.
pub clean-path :
    (b : Bool) (c : Text) (cs : List Text)
    → All IsPlain (c ∷ cs)
    → clean (path b (c ∷ cs)) ≡ path b (c ∷ cs)
unfolding clean
clean-path false c cs ps =
    rw (is_rooted-slashed c cs ps.0, split-slashed c cs ps, clean_stack-plain false [] (c ∷ cs) ps)
      (path_of-reverse false c cs)
clean-path true c cs ps =
    ap (λ xs. path_of true (clean_stack true [] ([] ∷ xs))) (split-slashed c cs ps)
    ∙ ap (path_of true) (clean_stack-plain true [] (c ∷ cs) ps)
    ∙ path_of-reverse true c cs

pub slashed-append :
    (c d : Text) (cs ds : List Text)
    → slashed (slashed (c ∷ cs) ∷ d ∷ ds) ≡ slashed ((c ∷ cs) ++ d ∷ ds)
unfolding slashed
slashed-append c d [] ds = refl
slashed-append c d (e ∷ cs) ds =
    append_assoc c (b'/' ∷ slashed (e ∷ cs)) (b'/' ∷ slashed (d ∷ ds))
    ∙ ap (λ x. c ++ b'/' ∷ x) (slashed-append e d cs ds)

-- Joining components to a path appends them.
pub join-path :
    (b : Bool) (c d : Text) (cs ds : List Text)
    → All IsPlain (c ∷ cs)
    → All IsPlain (d ∷ ds)
    → join (path b (c ∷ cs) ∷ d ∷ ds) ≡ path b ((c ∷ cs) ++ d ∷ ds)
unfolding join
join-path true c d cs ds ps qs =
    ap (λ x. clean (b'/' ∷ x)) (slashed-append c d cs ds)
    ∙ clean-path true c (cs ++ d ∷ ds) (All-append IsPlain (c ∷ cs) (d ∷ ds) ps qs)
join-path false c d cs ds ps qs = rw (is_nil-slashed c cs ps.0) (
    ap clean (slashed-append c d cs ds)
    ∙ clean-path false c (cs ++ d ∷ ds) (All-append IsPlain (c ∷ cs) (d ∷ ds) ps qs))

slashed-injective :
    (c d : Text) (cs ds : List Text)
    → All IsPlain (c ∷ cs)
    → All IsPlain (d ∷ ds)
    → slashed (c ∷ cs) ≡ slashed (d ∷ ds)
    → c ∷ cs ≡ d ∷ ds
slashed-injective c d cs ds ps qs e =
    sym (split-slashed c cs ps) ∙ ap (λ x. split x b'/') e ∙ split-slashed d ds qs

-- Different components have different paths.
pub path-injective :
    (b : Bool) (c d : Text) (cs ds : List Text)
    → All IsPlain (c ∷ cs)
    → All IsPlain (d ∷ ds)
    → path b (c ∷ cs) ≡ path b (d ∷ ds)
    → c ∷ cs ≡ d ∷ ds
path-injective false c d cs ds ps qs e = slashed-injective c d cs ds ps qs e
path-injective true c d cs ds ps qs e = slashed-injective c d cs ds ps qs (ap (drop 1) e)

-- A joined path is clean.
pub clean-join :
    (b : Bool) (c d : Text) (cs ds : List Text)
    → All IsPlain (c ∷ cs)
    → All IsPlain (d ∷ ds)
    → clean (join (path b (c ∷ cs) ∷ d ∷ ds)) ≡ join (path b (c ∷ cs) ∷ d ∷ ds)
clean-join b c d cs ds ps qs =
    let named = join-path b c d cs ds ps qs in
    ap clean named
    ∙ clean-path b c (cs ++ d ∷ ds) (All-append IsPlain (c ∷ cs) (d ∷ ds) ps qs)
    ∙ sym named
