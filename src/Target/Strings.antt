-- ===== src/Target/Strings.antt =====
-- pkg/target/util.go: `ToStrings`, `CompletePath` and `ToXPath`.
use apiserver_runtime_exampl.Base.{
  Bool, false, not, ◌&&◌, Option, none, some, List, [], ◌∷◌, ◌++◌, map, Text, if◌then◌else◌, Result,
  ok, err, Dict, lookup, text_eq, is_nil, text_lt,
}
use apiserver_runtime_exampl.Target.Path.{PathElem, SdcPath}

-- `sort.Strings`. Its result is the sorted list of the same texts, however it is found.
insert_sorted : Text → List Text → List Text
insert_sorted k [] = k ∷ []
insert_sorted k (j ∷ ks) = if text_lt j k then j ∷ insert_sorted k ks else k ∷ j ∷ ks

unfoldable pub sort_strings : List Text → List Text
unfolding insert_sorted
sort_strings [] = []
sort_strings (k ∷ ks) = insert_sorted k (sort_strings ks)

-- `m[k]`, the empty text where the key is missing.
value_of : Option Text → Text
value_of none = []
value_of (some v) = v

unfoldable pub sorted_vals : Dict Text Text → List Text
unfolding value_of
sorted_vals ((k, v) ∷ []) = v ∷ []
sorted_vals m = map (λ k. value_of (lookup k m)) (sort_strings (map (λ (k, _). k) m))

unless_empty : Text → List Text
unless_empty t = if is_nil t then [] else t ∷ []

elem_strings : Bool → List PathElem → List Text
elem_strings nokeys [] = []
elem_strings nokeys (e ∷ es) =
    e.name ∷ ((if not nokeys then sorted_vals e.key else []) ++ elem_strings nokeys es)

-- A nil path is `none`.
unfoldable pub to_strings : Option SdcPath → Bool → Bool → List Text
unfolding unless_empty elem_strings
to_strings none prefix nokeys = []
to_strings (some p) prefix nokeys =
    (if prefix then unless_empty p.target ++ unless_empty p.origin else [])
    ++ elem_strings nokeys p.elem

-- `GetOrigin`, which a nil path answers too.
origin_of : Option SdcPath → Text
origin_of none = []
origin_of (some p) = p.origin

pub data CompleteError : Type 0 where
  origin_twice elements_before_origin : CompleteError

-- The `switch`, on the origins of prefix and path and the strings of the prefix.
full_prefix : Text → Text → List Text → Result CompleteError (List Text)
full_prefix pre path indexed =
    if not (is_nil pre) && not (is_nil path)
    then err origin_twice
    else if not (is_nil pre)
    then ok (pre ∷ indexed)
    else if not (is_nil path)
    then (if not (is_nil indexed) then err elements_before_origin else ok (path ∷ []))
    else ok indexed

append_path : Result CompleteError (List Text) → List Text → Result CompleteError (List Text)
append_path (ok xs) ys = ok (xs ++ ys)
append_path (err e) ys = err e

unfoldable pub complete_path : Option SdcPath → Option SdcPath → Result CompleteError (List Text)
unfolding origin_of full_prefix append_path
complete_path prefix path =
    append_path (full_prefix (origin_of prefix) (origin_of path) (to_strings prefix false false))
      (to_strings path false false)

-- `[k=v]` for each key, in the order in which the map is visited.
unfoldable pub key_xpath : Dict Text Text → Text
key_xpath [] = []
key_xpath ((k, v) ∷ m) = b'[' ∷ (k ++ b'=' ∷ (v ++ b']' ∷ key_xpath m))

unfoldable pub elem_xpath : Bool → PathElem → Text
unfolding key_xpath
elem_xpath no_keys pe = pe.name ++ (if not no_keys then key_xpath pe.key else [])

-- The elements, with a slash behind each but the last.
unfoldable pub elems_xpath : Bool → List PathElem → Text
unfolding elem_xpath
elems_xpath no_keys [] = []
elems_xpath no_keys (pe ∷ []) = elem_xpath no_keys pe
elems_xpath no_keys (pe ∷ qe ∷ pes) = elem_xpath no_keys pe ++ b'/' ∷ elems_xpath no_keys (qe ∷ pes)

unfoldable pub to_xpath : Option SdcPath → Bool → Text
unfolding elems_xpath
to_xpath none no_keys = []
to_xpath (some p) no_keys =
    (if is_nil p.origin then [] else p.origin ++ b':' ∷ []) ++ elems_xpath no_keys p.elem
