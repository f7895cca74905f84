-- ===== src/Target/Path/RoundTrip.antt =====
-- `ParsePath` on what `ToXPath` prints.
use apiserver_runtime_exampl.Base.{
  ℕ, ◌≡◌, refl, ◌∙◌, ◌≢◌, false, none, some, List, [], ◌∷◌, ◌++◌, append-nil, arith, Text, ok, All,
  Dict, index, ends_with, is_nil-ne, split,
}
use apiserver_runtime_exampl.Base.Fallible.{◌>>=◌}
use apiserver_runtime_exampl.Target.Path.{
  PathElem, SdcPath, path_loop, path_step, elems_of, split_buffer, to_path_elem, to_path_elems,
  parse_at, parse_path,
}
use apiserver_runtime_exampl.Target.Path.Scan.{
  IsPlain, IsNameChar, IsKeyValue, IsElem, All-IsPlain, nulled, path_loop-elems_xpath,
}
use apiserver_runtime_exampl.Target.Path.Keys.{to_path_elem-elem_xpath}
use apiserver_runtime_exampl.Target.Strings.{key_xpath, elem_xpath, elems_xpath, to_xpath}

abbrev HasNoNull : Text → Type 0
HasNoNull = All (λ c. c ≢ 0)

split-append : (s t : Text) → HasNoNull s → split (s ++ 0 ∷ t) 0 ≡ s ∷ split t 0
split-append [] t _ = refl
split-append (c ∷ s) t (h, rest) = ground (arith, split-append s t rest)

HasNoNull-append : (s t : Text) → HasNoNull s → HasNoNull t → HasNoNull (s ++ t)
HasNoNull-append [] t _ h = h
HasNoNull-append (c ∷ s) t (first, rest) h = (first, HasNoNull-append s t rest h)

HasNoNull-plain : (t : Text) → All IsPlain t → HasNoNull t
HasNoNull-plain [] _ = tt
HasNoNull-plain (c ∷ t) ((_, _, _, h), rest) = (h, HasNoNull-plain t rest)

HasNoNull-name : (t : Text) → All IsNameChar t → HasNoNull t
HasNoNull-name [] _ = tt
HasNoNull-name (c ∷ t) (((_, _, _, h), _), rest) = (h, HasNoNull-name t rest)

HasNoNull-key_xpath : (m : Dict Text Text) → All IsKeyValue m → HasNoNull (key_xpath m)
unfolding key_xpath
HasNoNull-key_xpath [] _ = tt
HasNoNull-key_xpath ((k, v) ∷ m) ((_, _, key, value), rest) = (
  λ e. absurd (omega arith),
  HasNoNull-append k _ (HasNoNull-plain k (All-IsPlain k key)) (
    λ e. absurd (omega arith),
    HasNoNull-append v _ (HasNoNull-plain v value)
        (λ e. absurd (omega arith), HasNoNull-key_xpath m rest),
  ),
)

elems_of-cons :
    (s : Text) (ss : List Text)
    → s ≢ []
    → elems_of (s ∷ ss) ≡ (to_path_elem s >>= λ pe. elems_of ss >>= λ pes. ok (pe ∷ pes))
unfolding elems_of
elems_of-cons [] ss h = absurd (h refl)
elems_of-cons (c ∷ s) ss h = refl

append-ne : (s t : Text) → s ≢ [] → s ++ t ≢ []
append-ne [] t h e = h refl
append-ne (c ∷ s) t h e = cc

elem_xpath-ne : (pe : PathElem) → pe.name ≢ [] → elem_xpath false pe ≢ []
unfolding elem_xpath
elem_xpath-ne pe h e = append-ne pe.name (key_xpath pe.key) h e

elems_of-nulled : (pes : List PathElem) → All IsElem pes → elems_of (split (nulled pes) 0) ≡ ok pes
elems_of-nulled [] _ = unfold elems_of in refl
elems_of-nulled (pe ∷ pes) (v, rest) =
    let whole : HasNoNull (elem_xpath false pe) =
      unfold elem_xpath in
      HasNoNull-append pe.name (key_xpath pe.key) (HasNoNull-name pe.name v.name_chars)
        (HasNoNull-key_xpath pe.key v.keys) in
    rw (
      split-append (elem_xpath false pe) (nulled pes) whole,
      elems_of-cons (elem_xpath false pe) (split (nulled pes) 0) (elem_xpath-ne pe v.named),
      to_path_elem-elem_xpath pe v,
      elems_of-nulled pes rest,
    )

-- The text of an element or path does not end in a slash.
ends_with-append : (s t : Text) (c : ℕ) → t ≢ [] → ends_with (s ++ t) c ≡ ends_with t c
ends_with-append [] t c h = refl
ends_with-append (x ∷ []) [] c h = absurd (h refl)
ends_with-append (x ∷ []) (y ∷ t) c h = refl
ends_with-append (x ∷ y ∷ s) t c h = ends_with-append (y ∷ s) t c h

no_slash : (t : Text) → All IsNameChar t → ends_with t b'/' ≡ false
no_slash [] _ = refl
no_slash (c ∷ []) ((_, h), _) = ground arith
no_slash (c ∷ d ∷ t) (_, rest) = no_slash (d ∷ t) rest

key_xpath_end : (m : Dict Text Text) → ends_with (b']' ∷ key_xpath m) b'/' ≡ false
unfolding key_xpath
key_xpath_end [] = refl
key_xpath_end ((k, v) ∷ m) =
    ends_with-append (b']' ∷ b'[' ∷ k) (b'=' ∷ (v ++ b']' ∷ key_xpath m)) b'/' (λ e. cc)
    ∙ ends_with-append (b'=' ∷ v) (b']' ∷ key_xpath m) b'/' (λ e. cc)
    ∙ key_xpath_end m

-- A bracket in front changes nothing at the end.
elem_end :
    (name : Text) (m : Dict Text Text)
    → All IsNameChar name
    → ends_with (name ++ key_xpath m) b'/' ≡ false
unfolding key_xpath
elem_end name [] h = rw append-nil (no_slash name h)
elem_end name ((k, v) ∷ m) h =
    ends_with-append name (b'[' ∷ (k ++ b'=' ∷ (v ++ b']' ∷ key_xpath m))) b'/' (λ e. cc)
    ∙ ends_with-append (b'[' ∷ k) (b'=' ∷ (v ++ b']' ∷ key_xpath m)) b'/' (λ e. cc)
    ∙ ends_with-append (b'=' ∷ v) (b']' ∷ key_xpath m) b'/' (λ e. cc)
    ∙ key_xpath_end m

elems_xpath-ne :
    (pe : PathElem) (pes : List PathElem) → pe.name ≢ [] → elems_xpath false (pe ∷ pes) ≢ []
unfolding elems_xpath
elems_xpath-ne pe [] h e = elem_xpath-ne pe h e
elems_xpath-ne pe (qe ∷ pes) h e = append-ne (elem_xpath false pe) _ (elem_xpath-ne pe h) e

elems_end :
    (pe : PathElem) (pes : List PathElem)
    → All IsElem (pe ∷ pes)
    → ends_with (elems_xpath false (pe ∷ pes)) b'/' ≡ false
unfolding elems_xpath elem_xpath
elems_end pe [] (v, _) = elem_end pe.name pe.key v.name_chars
elems_end pe (qe ∷ pes) (v, (w, rest)) =
    ends_with-append (elem_xpath false pe) (b'/' ∷ elems_xpath false (qe ∷ pes)) b'/' (λ e. cc)
    ∙ ends_with-append (b'/' ∷ []) (elems_xpath false (qe ∷ pes)) b'/'
        (elems_xpath-ne qe pes w.named)
    ∙ elems_end qe pes (w, rest)

-- A relative path.
pub to_path_elems-elems_xpath :
    (pe : PathElem) (pes : List PathElem)
    → All IsElem (pe ∷ pes)
    → to_path_elems (elems_xpath false (pe ∷ pes)) ≡ ok (pe ∷ pes)
unfolding to_path_elems split_buffer
to_path_elems-elems_xpath pe pes v =
    let (p, e) = path_loop-elems_xpath pe pes [] 0 v (omega arith) in
    rw (elems_end pe pes v, e) (elems_of-nulled (pe ∷ pes) v)

first_slash :
    (t : Text)
    → path_loop (record { buffer = []; prev_c = 0; in_key = false }) (b'/' ∷ t)
      ≡ path_loop (record { buffer = 0 ∷ []; prev_c = b'/'; in_key = false }) t
unfolding path_loop path_step
first_slash t = refl

elems_of-nil : (ss : List Text) → elems_of ([] ∷ ss) ≡ elems_of ss
unfolding elems_of
elems_of-nil ss = refl

-- A path with a slash in front.
pub to_path_elems-absolute :
    (pes : List PathElem) → All IsElem pes → to_path_elems (b'/' ∷ elems_xpath false pes) ≡ ok pes
unfolding to_path_elems split_buffer
to_path_elems-absolute [] _ = unfold elems_xpath path_loop elems_of in refl
to_path_elems-absolute (pe ∷ pes) v =
    let (p, e) = path_loop-elems_xpath pe pes (0 ∷ []) b'/' v (omega arith) in
    rw
      (
        ends_with-append (b'/' ∷ []) (elems_xpath false (pe ∷ pes)) b'/'
              (elems_xpath-ne pe pes v.0.named)
            ∙ elems_end pe pes v,
        first_slash (elems_xpath false (pe ∷ pes) ++ b'/' ∷ []),
        e,
      )
      (elems_of-nil (split (nulled (pe ∷ pes)) 0) ∙ elems_of-nulled (pe ∷ pes) v)

-- A path without an origin.
abbrev pub without_origin : List PathElem → SdcPath
without_origin pes = record { origin = []; elem = pes; target = [] }

parse_at-relative :
    (t : Text) (pes : List PathElem)
    → to_path_elems t ≡ ok pes
    → parse_at t none ≡ ok (without_origin pes)
unfolding parse_at
parse_at-relative t pes e = rw e

-- What `ToXPath` prints for such elements, at least one, `ParsePath` reads back without a slash in
-- front too, where no colon is printed.
pub parse_path-to_xpath_relative :
    (pe : PathElem) (pes : List PathElem)
    → All IsElem (pe ∷ pes)
    → index (to_xpath (some (without_origin (pe ∷ pes))) false) b':' ≡ none
    → parse_path (to_xpath (some (without_origin (pe ∷ pes))) false)
      ≡ ok (without_origin (pe ∷ pes))
unfolding parse_path to_xpath
parse_path-to_xpath_relative pe pes v no_colon =
    rw (is_nil-ne (elems_xpath false (pe ∷ pes)) (elems_xpath-ne pe pes v.0.named), no_colon)
      (parse_at-relative (elems_xpath false (pe ∷ pes)) (pe ∷ pes)
        (to_path_elems-elems_xpath pe pes v))
