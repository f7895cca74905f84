-- ===== src/JsonFile/Handlers/Reads.antt =====
-- pkg/filepath/jsonfile_rest.go: what `Create` and `Update` write is what `Get` reads.
use apiserver_runtime_exampl.Base.{
  ◌≡◌, refl, sym, ap, Bool, true, false, Option, none, some, [], ◌∷◌, Text, if◌then◌else◌, done,
  done-injective, ok,
}
use apiserver_runtime_exampl.Os.Paths.{join}
use apiserver_runtime_exampl.Os.Files.{Files, FsError}
use apiserver_runtime_exampl.Watch.{EventType}
use apiserver_runtime_exampl.JsonFile.{
  FilepathRest, RestError, namespace_not_exists, read, get, write, object_file_name, content_of,
  decoded, got, ensure_dir, encoded,
}
use apiserver_runtime_exampl.JsonFile.Names.{IsRooted, IsFileName, file_name-clean}
use apiserver_runtime_exampl.JsonFile.Handlers.{Answer, unless, made, saved, ensure_namespace}
use apiserver_runtime_exampl.JsonFile.Handlers.Written.{
  on, IsWritten, saved-IsWritten, saved-answer,
}

module _ {ℓ κ} {O : Type ℓ} {L : Type κ} where
  -- A write at an object's file is read back by `Get`.
  get-written :
      (f f' : FilepathRest O L) (ctx : Option Text) (name : Text) (obj back : O)
      → IsRooted f
      → IsFileName f ctx name
      → ((bytes : Text) → f.codec.encode obj ≡ ok bytes → f.codec.decode bytes f.new_func ≡ ok back)
      → IsWritten f f' (object_file_name f ctx name) obj
      → get f' ctx name ≡ ok back
  unfolding get read object_file_name content_of decoded got
  get-written f f' ctx name obj back v k codec w =
      rw (w.after, file_name-clean f ctx name v k, w.reads, codec w.bytes w.encodes) refl

  pub unless-ok {μ} :
      {A : Type μ} (f f' : FilepathRest O L) (e : Option RestError) (next : Answer O L A) {a : A}
      → unless f e next ≡ done (f', ok a)
      → next ≡ done (f', ok a)
  unfolding unless
  unless-ok f f' none next h = h
  unless-ok f f' (some e) next h = let wrong = ap (λ x. x.1) (done-injective h) in cc

  made-none :
      (f g : FilepathRest O L) (w : Files × Option FsError)
      → made f w ≡ (g, none)
      → g ≡ on f w.0 f.chans
  unfolding made
  made-none f g (d, none) h = sym (ap (λ x. x.0) h)
  made-none f g (d, some e) h = let wrong = ap (λ x. x.1) h in cc

  unnamed-keeps :
      (f g : FilepathRest O L) (e : RestError) (b : Bool)
      → ◌≡◌ {A = FilepathRest O L × Option RestError}
          (if b then (f, some e) else (f, none))
          (g, none)
      → f ≡ g
  unnamed-keeps f g e true h = let wrong = ap (λ x. x.1) h in cc
  unnamed-keeps f g e false h = ap (λ x. x.0) h

  named-keeps :
      (f g : FilepathRest O L) (w : Files × Option FsError) (b : Bool)
      → ◌≡◌ {A = FilepathRest O L × Option RestError} (if b then made f w else (f, none)) (g, none)
      → (d : Files) × (g ≡ on f d f.chans)
  named-keeps f g w true h = (w.0, made-none f g w h)
  named-keeps f g w false h = (f.disk, sym (ap (λ x. x.0) h))

  -- `Create` and `Update` change only the disk before they write.
  pub namespace-keeps :
      (f g : FilepathRest O L) (ctx : Option Text)
      → ensure_namespace f ctx ≡ (g, none)
      → (d : Files) × (g ≡ on f d f.chans)
  unfolding ensure_namespace
  namespace-keeps f g none h =
      (f.disk, sym (unnamed-keeps f g namespace_not_exists f.is_namespaced h))
  namespace-keeps f g (some ns) h =
      named-keeps f g (ensure_dir f.disk (join (f.obj_root_path ∷ ns ∷ []))) f.is_namespaced h

  on-IsRooted : (f : FilepathRest O L) (d : Files) → IsRooted f → IsRooted (on f d f.chans)
  on-IsRooted f d v = record {
    rooted = v.rooted;
    first = v.first;
    rest = v.rest;
    plain = v.plain;
    is_path = v.is_path;
  }

  on-IsFileName :
      (f : FilepathRest O L) (d : Files) (ctx : Option Text) (name : Text)
      → IsFileName f ctx name
      → IsFileName (on f d f.chans) ctx name
  on-IsFileName f d ctx name k = record { namespace = k.namespace; name = k.name }

  -- The object that `Create` writes.
  abbrev pub stamped : FilepathRest O L → O → Text → O
  stamped f obj uid = f.meta.set_uid obj uid

  -- The codec reads back what it writes of an object as `back`.
  abbrev pub ReadsBack : FilepathRest O L → O → O → Type ℓ
  ReadsBack f obj back =
      (bytes : Text) → f.codec.encode obj ≡ ok bytes → f.codec.decode bytes f.new_func ≡ ok back

  module _ (f f' : FilepathRest O L) (ctx : Option Text) (back : O) (v : IsRooted f) where
    pub saved_lem {μ} :
        {A : Type μ} (d : Files) (name : Text) (t : EventType) (obj : O) (answer answer' : A)
        → IsFileName f ctx name
        → ReadsBack f obj back
        → saved t obj answer
            (write (on f d f.chans) (object_file_name (on f d f.chans) ctx name) obj)
          ≡ done (f', ok answer')
        → (answer' ≡ answer) × (get f' ctx name ≡ ok back)
    unfolding write
    saved_lem d name t obj answer answer' k codec ran =
        let g = on f d f.chans in
        let filename = object_file_name g ctx name in
        (
          saved-answer t f' obj answer answer' (write g filename obj) ran,
          get-written g f' ctx name obj back (on-IsRooted f d v) (on-IsFileName f d ctx name k)
              codec
              (saved-IsWritten t g f' filename obj answer answer'
                (encoded g filename (f.codec.encode obj)) refl ran),
        )
