-- ===== src/Target/Path.antt =====
-- pkg/target/util.go: `ParsePath` and what it calls. The source walks the runes of a text and cuts
-- it at byte positions of ASCII characters; here a text is its list of code points, and a position
-- counts these. A text is taken to be valid UTF-8.
pub mod Tests
pub mod Scan
pub mod Keys
pub mod RoundTrip
pub mod Origin
use apiserver_runtime_exampl.Base.{
  ℕ, zero, suc, ◌+◌, Bool, true, false, not, ◌&&◌, ◌||◌, Option, none, some, List, [], ◌∷◌, ◌++◌,
  Text, ◌==◌, ltb, if◌then◌else◌, Result, ok, err, Dict, insert, text_eq, length, get_elem?, is_nil,
  take, drop, slice, index, has_char, ends_with, split,
}
use apiserver_runtime_exampl.Base.Fallible.{◌>>=◌}

-- The messages `sdcpb.PathElem` and `sdcpb.Path`; a nil map of keys is the empty one.
pub record PathElem : Type 0 where
  pub name : Text
  pub key : Dict Text Text

pub record SdcPath : Type 0 where
  pub origin : Text
  pub elem : List PathElem
  pub target : Text

pub data PathError : Type 0 where
  malformed_xpath malformed_xpath_key : PathError

-- `escapedBracketsReplacer.Replace`: the backslash of `\[` and `\]` goes.
unfoldable pub unescape : Text → Text
unescape [] = []
unescape (x ∷ []) = x ∷ []
unescape (x ∷ y ∷ s) =
    let cut = y ∷ unescape s in
    let kept = x ∷ unescape (y ∷ s) in if x == b'\\' && (y == b']' || y == b'[') then cut else kept

-- The variables of the loop of `parseXPathKeys`.
pub record KeyScan : Type 0 where
  pub kvs : Dict Text Text
  pub in_key : Bool
  pub start : ℕ
  pub prev_rune : ℕ

-- The text between the brackets, split at its first `=`.
add_key : KeyScan → Text → Option ℕ → Result PathError KeyScan
add_key st body none = err malformed_xpath_key
add_key st body (some eq) =
    let k = take eq body in
    let v = drop (eq + 1) body in
    if is_nil k || is_nil v
    then err malformed_xpath_key
    else ok (record st {
      kvs = insert (unescape k) (unescape v) st.kvs;
      in_key = false;
      prev_rune = b']';
    })

-- One round, at the rune `r` in position `i` of `s`.
key_step : Text → KeyScan → ℕ → ℕ → Result PathError KeyScan
unfolding add_key
key_step s st i r =
    if r == b'['
    then (if st.prev_rune == b'\\'
        then ok (record st { prev_rune = r })
        else if st.in_key
        then err malformed_xpath_key
        else ok (record st { in_key = true; start = i + 1; prev_rune = r }))
    else if r == b']'
    then (if st.prev_rune == b'\\'
        then ok (record st { prev_rune = r })
        else if not st.in_key
        then err malformed_xpath_key
        else add_key st (slice s st.start i) (index (slice s st.start i) b'='))
    else ok (record st { prev_rune = r })

pub key_loop : Text → KeyScan → ℕ → Text → Result PathError KeyScan
unfolding key_step
key_loop s st i [] = ok st
key_loop s st i (r ∷ rest) = do st' ← key_step s st i r; key_loop s st' (i + 1) rest

finish_keys : KeyScan → Result PathError (Dict Text Text)
finish_keys st = if st.in_key then err malformed_xpath_key else ok st.kvs

unfoldable pub parse_xpath_keys : Text → Result PathError (Dict Text Text)
unfolding key_loop finish_keys
parse_xpath_keys [] = ok []
parse_xpath_keys (c ∷ s) = do
  st ← key_loop (c ∷ s) (record { kvs = []; in_key = false; start = 0; prev_rune = 0 }) 0 (c ∷ s)
  finish_keys st

-- The loop of `toPathElem`: the position of the first bracket that is not escaped.
pub find_bracket : ℕ → ℕ → Text → Option ℕ
find_bracket i prev [] = none
find_bracket i prev (r ∷ s) =
    let rest = find_bracket (i + 1) r s in if r == b'[' && not (prev == b'\\') then some i else rest

-- `if idx > 0`: a bracket in the first position is part of the name.
elem_at : Text → Option ℕ → Result PathError PathElem
elem_at s none = ok (record { name = s; key = [] })
elem_at s (some zero) = ok (record { name = s; key = [] })
elem_at s (some (suc i)) = do
  kvs ← parse_xpath_keys (drop (suc i) s)
  ok (record { name = take (suc i) s; key = kvs })

unfoldable pub to_path_elem : Text → Result PathError PathElem
unfolding find_bracket elem_at
to_path_elem s = elem_at s (find_bracket 0 0 s)

-- The variables of the first loop of `toPathElems`.
pub record PathScan : Type 0 where
  pub buffer : Text
  pub prev_c : ℕ
  pub in_key : Bool

-- `buffer = append(buffer, r)` and `prevC = r`.
push : PathScan → ℕ → ℕ → PathScan
push st c r = record st { buffer = st.buffer ++ c ∷ []; prev_c = r }

path_step : PathScan → ℕ → Result PathError PathScan
unfolding push
path_step st r =
    let escaped = st.prev_c == b'\\' in
    if r == b'['
    then (if st.in_key && not escaped
        then err malformed_xpath
        else ok (push (record st { in_key = if escaped then st.in_key else true }) r r))
    else if r == b']'
    then (if not st.in_key && not escaped
        then err malformed_xpath
        else ok (push (record st { in_key = if escaped then st.in_key else false }) r r))
    else if r == b'/' && not st.in_key
    then ok (push st 0 r)
    else ok (push st r r)

pub path_loop : PathScan → Text → Result PathError PathScan
unfolding path_step
path_loop st [] = ok st
path_loop st (r ∷ rest) = do st' ← path_step st r; path_loop st' rest

-- The second loop, over the pieces between the null runes.
pub elems_of : List Text → Result PathError (List PathElem)
elems_of [] = ok []
elems_of ([] ∷ rest) = elems_of rest
elems_of ((c ∷ s) ∷ rest) = do pe ← to_path_elem (c ∷ s); pes ← elems_of rest; ok (pe ∷ pes)

split_buffer : PathScan → Result PathError (List PathElem)
split_buffer st = if st.in_key then err malformed_xpath else elems_of (split st.buffer 0)

unfoldable pub to_path_elems : Text → Result PathError (List PathElem)
unfolding path_loop split_buffer elems_of
to_path_elems p = do
  st ←
      path_loop (record { buffer = []; prev_c = 0; in_key = false })
        (if ends_with p b'/' then p else p ++ b'/' ∷ [])
  split_buffer st

-- `p[i] == '/'`
slash_at : Text → ℕ → Bool
slash_at p i = elim (get_elem? p i) [ none ↦ false | some c ↦ c == b'/' ]

-- The test for an origin, at the position of the first colon.
is_origin : Text → ℕ → Bool
unfolding slash_at
is_origin p idx =
    not (slash_at p 0)
    && not (has_char (take idx p) b'/')
    && ((ltb (idx + 1) (length p) && slash_at p (idx + 1)) || length p == idx + 1)

parse_at : Text → Option ℕ → Result PathError SdcPath
unfolding is_origin
parse_at p none = do pes ← to_path_elems p; ok (record { origin = []; elem = pes; target = [] })
parse_at p (some idx) =
    let origin = if is_origin p idx then take idx p else [] in
    let rest = if is_origin p idx then drop (idx + 1) p else p in
    (do pes ← to_path_elems rest; ok (record { origin = origin; elem = pes; target = [] }))

unfoldable pub parse_path : Text → Result PathError SdcPath
unfolding parse_at
parse_path p =
    if is_nil p
    then ok (record { origin = []; elem = []; target = [] })
    else parse_at p (index p b':')
