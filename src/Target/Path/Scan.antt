-- ===== src/Target/Path/Scan.antt =====
-- The first loop of `toPathElems` over a printed path: only the slashes between elements become
-- null runes.
use apiserver_runtime_exampl.Base.{
  ℕ, ◌≡◌, refl, ap, ◌∙◌, ◌≢◌, Bool, true, false, not, ◌&&◌, List, [], ◌∷◌, ◌++◌, append_assoc,
  append-nil, arith, Text, ◌==◌, ok, All, Dict, NodupKeys, text_eq,
}
use apiserver_runtime_exampl.Base.Fallible.{◌>>=◌, >>=-congr}
use apiserver_runtime_exampl.Target.Path.{PathElem, PathScan, path_step, path_loop}
use apiserver_runtime_exampl.Target.Strings.{key_xpath, elem_xpath, elems_xpath}

-- A character that is no bracket, backslash or null rune.
abbrev pub IsPlain : ℕ → Type 0
IsPlain c = (c ≢ b'[') × (c ≢ b']') × (c ≢ b'\\') × (c ≢ 0)

-- The characters of an element's name, and of a key's.
abbrev pub IsNameChar : ℕ → Type 0
IsNameChar c = IsPlain c × (c ≢ b'/')

abbrev pub IsKeyChar : ℕ → Type 0
IsKeyChar c = IsPlain c × (c ≢ b'=')

-- A key and its value as a path can hold them.
abbrev pub IsKeyValue : Text × Text → Type 0
IsKeyValue kv = (kv.0 ≢ []) × (kv.1 ≢ []) × All IsKeyChar kv.0 × All IsPlain kv.1

abbrev pub at : Text → ℕ → Bool → PathScan
at b p k = record { buffer = b; prev_c = p; in_key = k }

-- From a state whose last rune is no backslash, the loop reads `t`, appends `out`, and ends in a
-- state of that kind, inside a key as `k'` says.
abbrev Reads : Text → Text → Bool → Bool → Type 0
Reads t out k k' =
    (b : Text) (p : ℕ)
    → p ≢ b'\\'
    → (p' : ℕ) × (p' ≢ b'\\') × (path_loop (at b p k) t ≡ ok (at (b ++ out) p' k'))

path_loop-append :
    (s t : Text) (st : PathScan)
    → path_loop st (s ++ t) ≡ (path_loop st s >>= λ st'. path_loop st' t)
unfolding path_loop
path_loop-append [] t st = refl
path_loop-append (c ∷ s) t st =
    >>=-congr (path_step st c) (λ st'. path_loop st' (s ++ t)) (λ st'. path_loop st' s)
      (λ st'. path_loop st' t) (λ st'. path_loop-append s t st')

Reads-append :
    (s t out out' : Text) (k k' k'' : Bool)
    → Reads s out k k'
    → Reads t out' k' k''
    → Reads (s ++ t) (out ++ out') k k''
Reads-append s t out out' k k' k'' first second b p h =
    let (p', h', e) = first b p h in
    let (p'', h'', e') = second (b ++ out) p' h' in
    (
      p'',
      h'',
      path_loop-append s t (at b p k)
          ∙ rw e (e' ∙ ap (λ x. ok (at x p'' k'')) (append_assoc b out out')),
    )

Reads-one :
    (c o : ℕ) (k k' : Bool)
    → c ≢ b'\\'
    → ((b : Text) (p : ℕ) → p ≢ b'\\' → path_step (at b p k) c ≡ ok (at (b ++ o ∷ []) c k'))
    → Reads (c ∷ []) (o ∷ []) k k'
unfolding path_loop
Reads-one c o k k' h step b p q = (c, h, rw (step b p q))

-- Plain characters are copied; outside a key there must be no slash among them.
Reads-plain :
    (t : Text) (k : Bool) → All (λ c. IsPlain c × ((c == b'/' && not k) ≡ false)) t → Reads t t k k
unfolding path_loop path_step
Reads-plain [] k _ = λ b p h. (p, h, rw append-nil)
Reads-plain (c ∷ t) k (((l, r, s, _), slash), rest) =
    Reads-append (c ∷ []) t (c ∷ []) t k k k (Reads-one c c k k s (λ b p h. ground arith))
      (Reads-plain t k rest)

Reads-open : Reads (b'[' ∷ []) (b'[' ∷ []) false true
unfolding path_step
Reads-open = Reads-one b'[' b'[' false true (omega arith) (λ b p h. ground arith)

Reads-close : Reads (b']' ∷ []) (b']' ∷ []) true false
unfolding path_step
Reads-close = Reads-one b']' b']' true false (omega arith) (λ b p h. ground arith)

Reads-slash : Reads (b'/' ∷ []) (0 ∷ []) false false
unfolding path_step
Reads-slash = Reads-one b'/' 0 false false (omega arith) (λ b p h. ground arith)

-- Inside a key every plain character is copied.
All-inside : (t : Text) → All IsPlain t → All (λ c. IsPlain c × ((c == b'/' && not true) ≡ false)) t
All-inside [] _ = tt
All-inside (c ∷ t) (plain, rest) = ((plain, ground arith), All-inside t rest)

All-outside :
    (t : Text) → All IsNameChar t → All (λ c. IsPlain c × ((c == b'/' && not false) ≡ false)) t
All-outside [] _ = tt
All-outside (c ∷ t) ((plain, slash), rest) = ((plain, ground arith), All-outside t rest)

pub All-IsPlain : (t : Text) → All IsKeyChar t → All IsPlain t
All-IsPlain [] _ = tt
All-IsPlain (c ∷ t) ((plain, _), rest) = (plain, All-IsPlain t rest)

Reads-key_xpath :
    (m : Dict Text Text) → All IsKeyValue m → Reads (key_xpath m) (key_xpath m) false false
unfolding key_xpath
Reads-key_xpath [] _ = Reads-plain [] false tt
Reads-key_xpath ((k, v) ∷ m) ((_, _, key, value), rest) =
    Reads-append (b'[' ∷ []) (k ++ b'=' ∷ (v ++ b']' ∷ key_xpath m)) (b'[' ∷ []) _ false true false
      Reads-open
      (Reads-append k (b'=' ∷ (v ++ b']' ∷ key_xpath m)) k _ true true false
        (Reads-plain k true (All-inside k (All-IsPlain k key)))
        (Reads-append (b'=' ∷ []) (v ++ b']' ∷ key_xpath m) (b'=' ∷ []) _ true true false
          (Reads-plain (b'=' ∷ []) true (ground arith))
          (Reads-append v (b']' ∷ key_xpath m) v _ true true false
            (Reads-plain v true (All-inside v value))
            (Reads-append (b']' ∷ []) (key_xpath m) (b']' ∷ []) _ true false false Reads-close
              (Reads-key_xpath m rest)))))

-- An element that a path can hold.
pub record IsElem (pe : PathElem) : Type 0 where
  pub named : pe.name ≢ []
  pub name_chars : All IsNameChar pe.name
  pub unique : NodupKeys pe.key
  pub keys : All IsKeyValue pe.key

Reads-elem_xpath :
    (pe : PathElem) → IsElem pe → Reads (elem_xpath false pe) (elem_xpath false pe) false false
unfolding elem_xpath
Reads-elem_xpath pe v =
    Reads-append pe.name (key_xpath pe.key) pe.name (key_xpath pe.key) false false false
      (Reads-plain pe.name false (All-outside pe.name v.name_chars)) (Reads-key_xpath pe.key v.keys)

-- The buffer after the loop: a null rune behind each element.
abbrev pub nulled : List PathElem → Text
nulled [] = []
nulled (pe ∷ pes) = elem_xpath false pe ++ 0 ∷ nulled pes

Reads-elems :
    (pe : PathElem) (pes : List PathElem)
    → All IsElem (pe ∷ pes)
    → Reads (elems_xpath false (pe ∷ pes) ++ b'/' ∷ []) (nulled (pe ∷ pes)) false false
unfolding elems_xpath
Reads-elems pe [] (v, _) =
    Reads-append (elem_xpath false pe) (b'/' ∷ []) (elem_xpath false pe) (0 ∷ []) false false false
      (Reads-elem_xpath pe v) Reads-slash
Reads-elems pe (qe ∷ pes) (v, rest) = rw append_assoc (
    Reads-append (elem_xpath false pe) (b'/' ∷ (elems_xpath false (qe ∷ pes) ++ b'/' ∷ []))
      (elem_xpath false pe) _ false false false (Reads-elem_xpath pe v)
      (Reads-append (b'/' ∷ []) (elems_xpath false (qe ∷ pes) ++ b'/' ∷ []) (0 ∷ []) _ false false
        false Reads-slash (Reads-elems qe pes rest)))

-- The loop over a printed path.
pub path_loop-elems_xpath :
    (pe : PathElem) (pes : List PathElem) (b : Text) (p : ℕ)
    → All IsElem (pe ∷ pes)
    → p ≢ b'\\'
    → (p' : ℕ) × (path_loop (at b p false) (elems_xpath false (pe ∷ pes) ++ b'/' ∷ [])
        ≡ ok (at (b ++ nulled (pe ∷ pes)) p' false))
path_loop-elems_xpath pe pes b p v h = let (p', _, e) = Reads-elems pe pes v b p h in (p', e)
