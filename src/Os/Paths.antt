-- ===== src/Os/Paths.antt =====
-- `path/filepath` on Unix: `Clean`, `Join`, `Dir`.
pub mod Components
pub mod Parents
use apiserver_runtime_exampl.Base.{
  ℕ, Bool, true, false, ◌||◌, not, List, [], ◌∷◌, ◌++◌, Text, codes, is_nil, split, if◌then◌else◌,
  ◌==◌, text_eq, ◌≟◌,
}

-- Components with slashes between them.
unfoldable pub slashed : List Text → Text
slashed [] = []
slashed (c ∷ []) = c
slashed (c ∷ d ∷ cs) = c ++ b'/' ∷ slashed (d ∷ cs)

-- `..` on the components before it, the last one first.
up : Bool → List Text → List Text
up true [] = []
up false [] = codes ".." ∷ []
up rooted (d ∷ stack) = if d ≟ codes ".." then codes ".." ∷ d ∷ stack else stack

pub clean_step : Bool → List Text → Text → List Text
unfolding up
clean_step rooted stack c =
    if is_nil c || c ≟ codes "."
    then stack
    else if c ≟ codes ".."
    then up rooted stack
    else c ∷ stack

-- The components of a clean path, the last one first.
unfoldable pub clean_stack : Bool → List Text → List Text → List Text
unfolding clean_step
clean_stack rooted stack [] = stack
clean_stack rooted stack (c ∷ cs) = clean_stack rooted (clean_step rooted stack c) cs

abbrev pub reverse_onto {ℓ} : {A : Type ℓ} → List A → List A → List A
reverse_onto [] acc = acc
reverse_onto (x ∷ xs) acc = reverse_onto xs (x ∷ acc)

abbrev pub is_rooted : Text → Bool
is_rooted [] = false
is_rooted (c ∷ p) = c == b'/'

-- The path of a stack of components.
unfoldable pub path_of : Bool → List Text → Text
unfolding slashed
path_of true stack = b'/' ∷ slashed (reverse_onto stack [])
path_of false stack = if is_nil stack then codes "." else slashed (reverse_onto stack [])

-- `filepath.Clean`
unfoldable pub clean : Text → Text
unfolding path_of clean_stack
clean p = path_of (is_rooted p) (clean_stack (is_rooted p) [] (split p b'/'))

-- `filepath.Join`
unfoldable pub join : List Text → Text
unfolding clean slashed
join [] = []
join (e ∷ es) = if is_nil e then join es else clean (slashed (e ∷ es))

-- The part up to the last slash, that one included.
before_name : Text → Text
before_name [] = []
before_name (c ∷ p) =
    let rest = before_name p in
    if not (is_nil rest) then c ∷ rest else if c == b'/' then c ∷ [] else []

-- `filepath.Dir`
unfoldable pub dir : Text → Text
unfolding clean before_name
dir p = clean (before_name p)

-- The last component.
abbrev pub last_of : List Text → Text
last_of [] = []
last_of (c ∷ []) = c
last_of (c ∷ d ∷ cs) = last_of (d ∷ cs)

-- `info.Name()`
abbrev pub base_name : Text → Text
base_name p = last_of (split p b'/')
