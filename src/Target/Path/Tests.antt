-- ===== src/Target/Path/Tests.antt =====
-- Runs of the parser on small paths, and the theorems about it at such paths.
use apiserver_runtime_exampl.Base.{
  some, none, false, index, nat_eq, ◌≡◌, refl, [], ◌∷◌, codes, ok, err, ℕ_discrete, text_eq, insert,
}
use apiserver_runtime_exampl.Target.Path.{
  parse_path, to_path_elems, to_path_elem, parse_xpath_keys, unescape, malformed_xpath, PathElem,
}
use apiserver_runtime_exampl.Target.Path.RoundTrip.{without_origin}
use apiserver_runtime_exampl.Target.Strings.{to_xpath}

keyed :
    parse_path (codes "/a/b[k=v][j=x/y]/c")
    ≡ ok (record {
      origin = [];
      elem =
          record { name = codes "a"; key = [] }
          ∷ record {
            name = codes "b";
            key = (codes "k", codes "v") ∷ (codes "j", codes "x/y") ∷ [];
          }
          ∷ record { name = codes "c"; key = [] }
          ∷ [];
      target = [];
    })
unfolding parse_path to_path_elems to_path_elem parse_xpath_keys unescape text_eq ℕ_discrete insert
keyed = refl

with_origin :
    parse_path (codes "org:/a")
    ≡ ok (record {
      origin = codes "org";
      elem = record { name = codes "a"; key = [] } ∷ [];
      target = [];
    })
unfolding parse_path to_path_elems to_path_elem
with_origin = refl

unbalanced : parse_path (codes "a]b") ≡ err malformed_xpath
unfolding parse_path to_path_elems
unbalanced = refl

abbrev element : PathElem
element = record { name = codes "b"; key = (codes "k", codes "x/y") ∷ [] }

no_colon : index (to_xpath (some (without_origin (element ∷ []))) false) b':' ≡ none
unfolding to_xpath ℕ_discrete
no_colon = refl
