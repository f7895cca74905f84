-- ===== src/Os/Paths/Parents.antt =====
-- `filepath.Dir` of an absolute path, which is given by its components, the last one first.
use apiserver_runtime_exampl.Base.{
  ◌≡◌, ◌≢◌, refl, sym, ap, ◌∙◌, true, false, List, [], ◌∷◌, ◌++◌, append_assoc, arith, Text, length,
  length-append, split, has_char, text_eq, All, drop,
}
use apiserver_runtime_exampl.Os.Paths.{
  slashed, clean_step, clean_stack, reverse_onto, path_of, clean, before_name, dir,
}
use apiserver_runtime_exampl.Os.Paths.Components.{
  IsPlain, split-slash, clean_step-plain, slashed-append, reverse_onto-back,
}

reverse_onto-append :
    (cs acc ds : List Text) → reverse_onto cs (acc ++ ds) ≡ reverse_onto cs acc ++ ds
reverse_onto-append [] acc ds = refl
reverse_onto-append (c ∷ cs) acc ds = reverse_onto-append cs (c ∷ acc) ds

reverse_onto-ne : (cs acc : List Text) (c : Text) → reverse_onto cs (c ∷ acc) ≢ []
reverse_onto-ne [] acc c h = cc
reverse_onto-ne (d ∷ cs) acc c h = reverse_onto-ne cs (c ∷ acc) d h

slashed_snoc :
    (cs : List Text) (d : Text) → cs ≢ [] → slashed (cs ++ d ∷ []) ≡ slashed cs ++ b'/' ∷ d
unfolding slashed
slashed_snoc [] d h = absurd (h refl)
slashed_snoc (c ∷ cs) d h = sym (slashed-append c d cs [])

-- One component more.
path_of-more :
    (d c : Text) (stack : List Text)
    → path_of true (d ∷ c ∷ stack) ≡ path_of true (c ∷ stack) ++ b'/' ∷ d
unfolding path_of
path_of-more d c stack =
    ap (λ x. b'/' ∷ x)
      (ap slashed (reverse_onto-append (c ∷ stack) [] (d ∷ []))
        ∙ slashed_snoc (reverse_onto (c ∷ stack) []) d (reverse_onto-ne stack [] c))

path_of-one : (d : Text) → path_of true (d ∷ []) ≡ b'/' ∷ d
unfolding path_of slashed
path_of-one d = refl

before_name-nil : (d : Text) → has_char d b'/' ≡ false → before_name d ≡ []
unfolding before_name
before_name-nil [] h = refl
before_name-nil (x ∷ d) h = ground (arith, before_name-nil d)

before_name-slash :
    (p d : Text) → has_char d b'/' ≡ false → before_name (p ++ b'/' ∷ d) ≡ p ++ b'/' ∷ []
unfolding before_name
before_name-slash [] d h = rw (before_name-nil d h) refl
before_name-slash (x ∷ []) d h = rw (before_name-nil d h) refl
before_name-slash (x ∷ y ∷ p) d h = rw (before_name-slash (y ∷ p) d h) refl

split-ended :
    (c : Text) (cs : List Text)
    → All IsPlain (c ∷ cs)
    → split (slashed (c ∷ cs) ++ b'/' ∷ []) b'/' ≡ (c ∷ cs) ++ [] ∷ []
unfolding slashed
split-ended c [] (p, _) = split-slash c [] p.no_slash
split-ended c (d ∷ cs) (p, ps) =
    ap (λ t. split t b'/') (append_assoc c (b'/' ∷ slashed (d ∷ cs)) (b'/' ∷ []))
    ∙ split-slash c (slashed (d ∷ cs) ++ b'/' ∷ []) p.no_slash
    ∙ ap (◌∷◌ c) (split-ended d cs ps)

clean_stack-ended :
    (stack cs : List Text)
    → All IsPlain cs
    → clean_stack true stack (cs ++ [] ∷ []) ≡ reverse_onto cs stack
unfolding clean_stack clean_step
clean_stack-ended stack [] _ = refl
clean_stack-ended stack (c ∷ cs) (p, ps) =
    ap (λ st. clean_stack true st (cs ++ [] ∷ [])) (clean_step-plain true stack c p)
    ∙ clean_stack-ended (c ∷ stack) cs ps

-- A slash at the end is dropped.
clean-ended :
    (cs : List Text)
    → cs ≢ []
    → All IsPlain cs
    → clean (b'/' ∷ slashed cs ++ b'/' ∷ []) ≡ path_of true (reverse_onto cs [])
unfolding clean clean_stack clean_step
clean-ended [] h _ = absurd (h refl)
clean-ended (c ∷ cs) h ps =
    ap (λ xs. path_of true (clean_stack true [] ([] ∷ xs))) (split-ended c cs ps)
    ∙ ap (path_of true) (clean_stack-ended [] (c ∷ cs) ps)

All-reverse_onto :
    (cs acc : List Text) → All IsPlain cs → All IsPlain acc → All IsPlain (reverse_onto cs acc)
All-reverse_onto [] acc _ q = q
All-reverse_onto (c ∷ cs) acc (p, ps) q = All-reverse_onto cs (c ∷ acc) ps (p, q)

clean-root : clean (b'/' ∷ []) ≡ path_of true []
unfolding clean clean_stack clean_step
clean-root = refl

-- The parent of a path has one component less.
pub dir-path_of :
    (d : Text) (stack : List Text)
    → All IsPlain (d ∷ stack)
    → dir (path_of true (d ∷ stack)) ≡ path_of true stack
unfolding dir path_of
dir-path_of d [] (p, _) =
    ap clean (ap before_name (path_of-one d) ∙ before_name-slash [] d p.no_slash) ∙ clean-root
dir-path_of d (c ∷ stack) (p, ps) =
    ap clean (
      ap before_name (path_of-more d c stack)
      ∙ before_name-slash (path_of true (c ∷ stack)) d p.no_slash)
    ∙ clean-ended (reverse_onto (c ∷ stack) []) (reverse_onto-ne stack [] c)
        (All-reverse_onto (c ∷ stack) [] ps tt)
    ∙ ap (path_of true) (reverse_onto-back (c ∷ stack))

-- The root is its own parent.
pub dir-root : dir (path_of true []) ≡ path_of true []
unfolding dir before_name path_of slashed
dir-root = clean-root

-- A path has a text longer than its parent's.
pub path_of-ne :
    (d : Text) (stack : List Text) → d ≢ [] → path_of true stack ≢ path_of true (d ∷ stack)
unfolding path_of
path_of-ne d [] h same = h (ap (drop 1) (sym (same ∙ path_of-one d)))
path_of-ne d (c ∷ stack) h same =
    let n = ap length (same ∙ path_of-more d c stack) in
    let m = length-append (path_of true (c ∷ stack)) (b'/' ∷ d) in omega arith
