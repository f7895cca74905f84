-- ===== src/Target/Path/Keys.antt =====
-- `parseXPathKeys` and `toPathElem` on what `ToXPath` prints for one element.
use apiserver_runtime_exampl.Base.{
  ℕ, suc, ◌+◌, ◌≡◌, refl, ap, sym, subst, ◌∙◌, ◌≢◌, Bool, true, false, none, some, List, [], ◌∷◌,
  ◌++◌, append_assoc, append-nil, arith, Text, ok, All, Dict, NodupKeys, text_eq, lookup, insert,
  insert-fresh, All-fresh, All-lookup-insert, All-lookup-nil, length, length-append, take, drop,
  slice, index, is_nil-ne,
}
use native.Mathlib.Nat.{zero-add}
use apiserver_runtime_exampl.Target.Path.{
  PathElem, KeyScan, unescape, add_key, key_step, key_loop, parse_xpath_keys, find_bracket, elem_at,
  to_path_elem,
}
use apiserver_runtime_exampl.Target.Path.Scan.{
  IsPlain, IsKeyChar, IsNameChar, IsKeyValue, IsElem, All-IsPlain,
}
use apiserver_runtime_exampl.Target.Strings.{key_xpath, elem_xpath}

module _ {ℓ} {A : Type ℓ} where
  take-length_append : (xs ys : List A) → take (length xs) (xs ++ ys) ≡ xs
  take-length_append [] ys = refl
  take-length_append (x ∷ xs) ys = ap (◌∷◌ x) (take-length_append xs ys)

  drop-suc_append : (xs : List A) (y : A) (ys : List A) → drop (suc (length xs)) (xs ++ y ∷ ys) ≡ ys
  drop-suc_append [] y ys = refl
  drop-suc_append (x ∷ xs) y ys = drop-suc_append xs y ys

  drop-length_append : (xs ys : List A) → drop (length xs) (xs ++ ys) ≡ ys
  drop-length_append [] ys = refl
  drop-length_append (x ∷ xs) ys = drop-length_append xs ys

  -- The part between two others.
  slice-middle :
      (xs ys zs : List A) (n : ℕ)
      → n ≡ length xs + length ys
      → slice (xs ++ (ys ++ zs)) (length xs) n ≡ ys
  slice-middle xs ys zs n e =
      rw (drop-length_append xs (ys ++ zs))
        (ap (λ k. take k (ys ++ zs)) (omega arith) ∙ take-length_append ys zs)

-- A text with no backslash is not changed.
unescape-plain : (t : Text) → All IsPlain t → unescape t ≡ t
unfolding unescape
unescape-plain [] _ = refl
unescape-plain (x ∷ []) _ = refl
unescape-plain (x ∷ y ∷ t) ((_, _, back, _), rest) = ground (arith, unescape-plain (y ∷ t) rest)

-- The first `=` stands behind the key.
index-key : (k v : Text) → All IsKeyChar k → index (k ++ b'=' ∷ v) b'=' ≡ some (length k)
index-key [] v _ = refl
index-key (c ∷ k) v ((_, eq), rest) = ground (arith, index-key k v rest)

abbrev scan_at : Dict Text Text → Bool → ℕ → ℕ → KeyScan
scan_at m inside start prev = record { kvs = m; in_key = inside; start = start; prev_rune = prev }

key_step-plain :
    (s : Text) (st : KeyScan) (i c : ℕ)
    → c ≢ b'['
    → c ≢ b']'
    → key_step s st i c ≡ ok (record st { prev_rune = c })
unfolding key_step
key_step-plain s st i c l r = ground arith

key_step-open :
    (s : Text) (m : Dict Text Text) (start prev i : ℕ)
    → prev ≢ b'\\'
    → key_step s (scan_at m false start prev) i b'[' ≡ ok (scan_at m true (i + 1) b'[')
unfolding key_step
key_step-open s m start prev i h = ground arith

add_key-lem :
    (k v : Text) (st : KeyScan)
    → IsKeyValue (k, v)
    → add_key st (k ++ b'=' ∷ v) (some (length k))
      ≡ ok (record st { kvs = insert k v st.kvs; in_key = false; prev_rune = b']' })
unfolding add_key
add_key-lem k v st (some_key, some_value, key, value) =
    let next : length k + 1 ≡ suc (length k) = omega arith in
    ground (
      arith,
      take-length_append k (b'=' ∷ v),
      ap (λ n. drop n (k ++ b'=' ∷ v)) next ∙ drop-suc_append k b'=' v,
      is_nil-ne k some_key,
      is_nil-ne v some_value,
      unescape-plain k (All-IsPlain k key),
      unescape-plain v value,
    )

key_step-in_key :
    (s : Text) (m : Dict Text Text) (start prev i : ℕ)
    → prev ≢ b'\\'
    → key_step s (scan_at m true start prev) i b']'
      ≡ add_key (scan_at m true start prev) (slice s start i) (index (slice s start i) b'=')
unfolding key_step
key_step-in_key s m start prev i h = ground arith

-- The end of a key: what stands between the brackets is entered.
key_step-close :
    (s k v : Text) (m : Dict Text Text) (start prev i : ℕ)
    → prev ≢ b'\\'
    → slice s start i ≡ k ++ b'=' ∷ v
    → IsKeyValue (k, v)
    → key_step s (scan_at m true start prev) i b']' ≡ ok (scan_at (insert k v m) false start b']')
key_step-close s k v m start prev i h body kv =
    key_step-in_key s m start prev i h
    ∙ ap (λ b. add_key (scan_at m true start prev) b (index b b'=')) body
    ∙ ap (add_key (scan_at m true start prev) (k ++ b'=' ∷ v)) (index-key k v kv.2)
    ∙ add_key-lem k v (scan_at m true start prev) kv

-- Plain runes only move on.
key_loop-plain :
    (s t rest : Text) (m : Dict Text Text) (inside : Bool) (start prev i : ℕ)
    → All IsPlain t
    → prev ≢ b'\\'
    → (prev' : ℕ) × (prev' ≢ b'\\')
      × (key_loop s (scan_at m inside start prev) i (t ++ rest)
          ≡ key_loop s (scan_at m inside start prev') (i + length t) rest)
unfolding key_loop
key_loop-plain s [] rest m inside start prev i _ h =
    (prev, h, ap (λ n. key_loop s (scan_at m inside start prev) n rest) (omega arith))
key_loop-plain s (c ∷ t) rest m inside start prev i ((l, r, back, _), plain) h =
    let (prev', h', e) = key_loop-plain s t rest m inside start c (i + 1) plain back in
    (
      prev',
      h',
      rw (key_step-plain s (scan_at m inside start prev) i c l r)
          (e ∙ ap (λ n. key_loop s (scan_at m inside start prev') n rest) (omega arith)),
    )

All-body : (k v : Text) → All IsKeyChar k → All IsPlain v → All IsPlain (k ++ b'=' ∷ v)
All-body [] v _ value = (
  (
    λ e. absurd (omega arith),
    λ e. absurd (omega arith),
    λ e. absurd (omega arith),
    λ e. absurd (omega arith),
  ),
  value,
)
All-body (c ∷ k) v ((plain, _), key) value = (plain, All-body k v key value)

-- The loop reads every key that was printed.
key_loop-key_xpath :
    (s pre : Text) (acc m : Dict Text Text) (start prev i : ℕ)
    → s ≡ pre ++ key_xpath m
    → i ≡ length pre
    → prev ≢ b'\\'
    → All IsKeyValue m
    → NodupKeys m
    → All (λ e. lookup e.0 acc ≡ none) m
    → (start' : ℕ) × (prev' : ℕ) × (key_loop s (scan_at acc false start prev) i (key_xpath m)
        ≡ ok (scan_at (acc ++ m) false start' prev'))
unfolding key_loop key_xpath
key_loop-key_xpath s pre acc [] start prev i _ _ h _ _ _ = (start, prev, rw append-nil)
key_loop-key_xpath s pre acc ((k, v) ∷ m) start prev i whole here h (kv, kvs) (fresh, u)
      (first, rest) =
    let body = k ++ b'=' ∷ v in
    let later = b']' ∷ key_xpath m in
    let opened = pre ++ b'[' ∷ [] in
    let inner = append_assoc k (b'=' ∷ v) later in
    let split_up : s ≡ opened ++ (body ++ later) =
      whole
      ∙ sym (append_assoc pre (b'[' ∷ []) (body ++ later) ∙ ap (λ x. pre ++ b'[' ∷ x) inner) in
    let at_start : length opened ≡ i + 1 = omega (arith, length-append pre (b'[' ∷ [])) in
    let (prev', h', e) =
      key_loop-plain s body later acc true (i + 1) b'[' (i + 1) (All-body k v kv.2 kv.3)
        (λ x. absurd (omega arith)) in
    let cut : slice s (i + 1) (i + 1 + length body) ≡ body =
      subst (λ n. slice s n (n + length body) ≡ body) at_start
        (ap (λ x. slice x (length opened) (length opened + length body)) split_up
          ∙ slice-middle opened body later _ refl) in
    let closing = key_step-close s k v acc (i + 1) prev' (i + 1 + length body) h' cut kv in
    let (start'', prev'', e') =
      key_loop-key_xpath s (opened ++ (body ++ b']' ∷ [])) (insert k v acc) m (i + 1) b']'
        (i + 1 + length body + 1)
        (split_up
          ∙ sym (
              append_assoc opened (body ++ b']' ∷ []) (key_xpath m)
              ∙ ap (λ x. opened ++ x) (append_assoc body (b']' ∷ []) (key_xpath m))))
        (omega (
          arith,
          at_start,
          length-append opened (body ++ b']' ∷ []),
          length-append body (b']' ∷ []),
        ))
        (λ x. absurd (omega arith)) kvs u
        (All-lookup-insert k v acc m rest (All-fresh k m fresh)) in
    (
      start'',
      prev'',
      rw (key_step-open s acc start prev i h) (
          ap (λ t. key_loop s (scan_at acc true (i + 1) b'[') (i + 1) t) (sym inner)
          ∙ e
          ∙ rw closing (
              e'
              ∙ ap (λ x. ok (scan_at x false start'' prev''))
                  (ap (λ x. x ++ m) (insert-fresh k v acc first)
                    ∙ append_assoc acc ((k, v) ∷ []) m))),
    )

-- The keys of an element are read back in the order in which they were printed.
pub parse_xpath_keys-key_xpath :
    (m : Dict Text Text) → All IsKeyValue m → NodupKeys m → parse_xpath_keys (key_xpath m) ≡ ok m
unfolding parse_xpath_keys key_xpath
parse_xpath_keys-key_xpath [] _ _ = refl
parse_xpath_keys-key_xpath ((k, v) ∷ m) kvs u =
    let (start, prev, e) =
      key_loop-key_xpath (key_xpath ((k, v) ∷ m)) [] [] ((k, v) ∷ m) 0 0 0 refl refl
        (λ x. absurd (omega arith)) kvs u (All-lookup-nil ((k, v) ∷ m)) in
    rw e

find_bracket-none : (i prev : ℕ) (t : Text) → All IsNameChar t → find_bracket i prev t ≡ none
unfolding find_bracket
find_bracket-none i prev [] _ = refl
find_bracket-none i prev (c ∷ t) (((l, _, _, _), _), rest) =
    ground (arith, find_bracket-none (i + 1) c t rest)

find_bracket-some :
    (i prev : ℕ) (t s : Text)
    → All IsNameChar t
    → prev ≢ b'\\'
    → find_bracket i prev (t ++ b'[' ∷ s) ≡ some (i + length t)
unfolding find_bracket
find_bracket-some i prev [] s _ h = ground arith
find_bracket-some i prev (c ∷ t) s (((l, _, back, _), _), rest) h =
    ground (arith, find_bracket-some (i + 1) c t s rest back)

elem_at-some :
    (s name rest : Text) (m : Dict Text Text)
    → name ≢ []
    → s ≡ name ++ rest
    → parse_xpath_keys rest ≡ ok m
    → elem_at s (some (length name)) ≡ ok (record { name = name; key = m })
unfolding elem_at
elem_at-some s [] rest m h e parsed = absurd (h refl)
elem_at-some s (c ∷ name) rest m h e parsed =
    rw (e, drop-length_append name rest, parsed) (rw (take-length_append name rest))

printed_elem :
    (name : Text) (m : Dict Text Text)
    → name ≢ []
    → All IsNameChar name
    → All IsKeyValue m
    → NodupKeys m
    → elem_at (name ++ key_xpath m) (find_bracket 0 0 (name ++ key_xpath m))
      ≡ ok (record { name = name; key = m })
unfolding key_xpath
printed_elem name [] h chars _ _ =
    rw append-nil (rw (find_bracket-none 0 0 name chars) (unfold elem_at in refl))
printed_elem name ((k, v) ∷ m) h chars kvs u =
    rw (find_bracket-some 0 0 name (k ++ b'=' ∷ (v ++ b']' ∷ key_xpath m)) chars (omega arith)) (
      ap (λ n. elem_at (name ++ key_xpath ((k, v) ∷ m)) (some n)) (zero-add (length name))
      ∙ elem_at-some (name ++ key_xpath ((k, v) ∷ m)) name (key_xpath ((k, v) ∷ m)) ((k, v) ∷ m) h
          refl (parse_xpath_keys-key_xpath ((k, v) ∷ m) kvs u))

-- One printed element is read back.
pub to_path_elem-elem_xpath :
    (pe : PathElem) → IsElem pe → to_path_elem (elem_xpath false pe) ≡ ok pe
unfolding to_path_elem elem_xpath
to_path_elem-elem_xpath pe v = printed_elem pe.name pe.key v.named v.name_chars v.keys v.unique
