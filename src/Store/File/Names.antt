-- ===== src/Store/File/Names.antt =====
-- pkg/store/file/util.go, `filename`: the files of plain keys.
use apiserver_runtime_exampl.Base.{
  ℕ, ◌≡◌, refl, sym, ap, ◌∙◌, ◌⊎◌, inl, inr, Bool, false, List, [], ◌∷◌, ◌++◌, codes, Text, length,
  length-append, append-cancel_left, append-cancel_right, All-append, arith, if◌then◌else◌, is_nil,
  is_nil-ne, has_char, ◌||◌, All, text_eq,
}
use apiserver_runtime_exampl.Os.Paths.{clean}
use apiserver_runtime_exampl.Os.Paths.Components.{
  IsPlain, long-IsPlain, path, clean-path, join-path, path-injective,
}
use apiserver_runtime_exampl.Store.Key.{Key}
use apiserver_runtime_exampl.Store.File.{File, filename}

-- A key whose parts can name a directory and a file.
pub record IsFileKey (key : Key) : Type 0 where
  pub namespace : (key.namespace ≡ []) ⊎ IsPlain key.namespace
  pub name : has_char key.name b'/' ≡ false

has_char-append : (s t : Text) (c : ℕ) → has_char (s ++ t) c ≡ (has_char s c || has_char t c)
has_char-append [] t c = refl
has_char-append (x ∷ s) t c = ground (arith, has_char-append s t c)

pub json-IsPlain : (name : Text) → has_char name b'/' ≡ false → IsPlain (name ++ codes ".json")
json-IsPlain name h =
    let longer = length-append name (codes ".json") in
    long-IsPlain (name ++ codes ".json") (rw (has_char-append name (codes ".json") b'/', h) refl)
      (omega arith)

-- The components of an object's file below the root.
abbrev parts : Key → List Text
parts key =
    (if is_nil key.namespace then [] else key.namespace ∷ []) ++ (key.name ++ codes ".json") ∷ []

parts-plain : (key : Key) → IsFileKey key → All IsPlain (parts key)
parts-plain key v = elim v.namespace [
  | inl nothing ↦ rw nothing (json-IsPlain key.name v.name, tt)
  | inr plain ↦
      rw (is_nil-ne key.namespace plain.nonempty) (plain, (json-IsPlain key.name v.name, tt))
]

json-injective : (s t : Text) → (s ++ codes ".json") ∷ [] ≡ (t ++ codes ".json") ∷ [] → s ≡ t
json-injective s t e =
    let same : s ++ codes ".json" ≡ t ++ codes ".json" = cc in
    append-cancel_right s t (codes ".json") same

parts-injective : (k j : Key) → IsFileKey k → IsFileKey j → parts k ≡ parts j → k ≡ j
parts-injective k j v w e = elim v.namespace [
  | inl flat ↦ elim w.namespace [
    | inl flat' ↦
        let name = json-injective k.name j.name (rw flat at (rw flat' at e)) in
        λ i. record { namespace = (flat ∙ sym flat') i; name = name i }
    | inr q ↦
        let n = ap length (rw flat at (rw (is_nil-ne j.namespace q.nonempty) at e)) in
        absurd (omega arith)
  ]
  | inr p ↦ elim w.namespace [
    | inl flat ↦
        let n = ap length (rw flat at (rw (is_nil-ne k.namespace p.nonempty) at e)) in
        absurd (omega arith)
    | inr q ↦
        let both =
          rw (is_nil-ne k.namespace p.nonempty) at (rw (is_nil-ne j.namespace q.nonempty) at e) in
        let space : k.namespace ≡ j.namespace = cc in
        let name = json-injective k.name j.name cc in
        λ i. record { namespace = space i; name = name i }
  ]
]

module _ {ℓ κ} {O : Type ℓ} {T : Type κ} where
  -- The root directory is named by plain components, which `NewStore` gives for plain parts.
  pub record IsRooted (r : File O T) : Type (ℓ ⊔ κ) where
    pub rooted : Bool
    pub first : Text
    pub rest : List Text
    pub plain : All IsPlain (first ∷ rest)
    pub is_path : r.obj_root_path ≡ path rooted (first ∷ rest)

  filename-path :
      (r : File O T) (key : Key) (v : IsRooted r)
      → IsFileKey key
      → filename r key ≡ path v.rooted ((v.first ∷ v.rest) ++ parts key)
  unfolding filename
  filename-path r key v k = elim k.namespace [
    | inl nothing ↦
        rw (nothing, v.is_path)
          (join-path v.rooted v.first (key.name ++ codes ".json") v.rest [] v.plain
            (json-IsPlain key.name k.name, tt))
    | inr plain ↦
        rw (is_nil-ne key.namespace plain.nonempty, v.is_path)
          (join-path v.rooted v.first key.namespace v.rest ((key.name ++ codes ".json") ∷ [])
            v.plain (plain, (json-IsPlain key.name k.name, tt)))
  ]

  -- `readFile` cleans a name that is clean.
  pub filename-clean :
      (r : File O T) (key : Key)
      → IsRooted r
      → IsFileKey key
      → clean (filename r key) ≡ filename r key
  filename-clean r key v k = rw (filename-path r key v k) (
      clean-path v.rooted v.first (v.rest ++ parts key)
        (v.plain.0, All-append IsPlain v.rest (parts key) v.plain.1 (parts-plain key k)))

  -- Different keys have different files.
  pub filename-injective :
      (r : File O T) (k j : Key)
      → IsRooted r
      → IsFileKey k
      → IsFileKey j
      → filename r k ≡ filename r j
      → k ≡ j
  filename-injective r k j v kk kj same = parts-injective k j kk kj (
      append-cancel_left (v.first ∷ v.rest) (
        path-injective v.rooted v.first v.first (v.rest ++ parts k) (v.rest ++ parts j)
          (v.plain.0, All-append IsPlain v.rest (parts k) v.plain.1 (parts-plain k kk))
          (v.plain.0, All-append IsPlain v.rest (parts j) v.plain.1 (parts-plain j kj))
          (sym (filename-path r k v kk) ∙ same ∙ filename-path r j v kj)))
