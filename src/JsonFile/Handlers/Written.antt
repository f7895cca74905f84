-- ===== src/JsonFile/Handlers/Written.antt =====
-- pkg/filepath/jsonfile_rest.go: what `Create` and `Update` write is what `Get` reads.
use apiserver_runtime_exampl.Base.{
  ◌≡◌, refl, sym, ap, ◌∙◌, Option, none, some, Text, done, >>=-eq-done, done-injective, Result, ok,
  err,
}
use apiserver_runtime_exampl.Os.Files.{Files, FsError, read_file, write_file}
use apiserver_runtime_exampl.Os.Files.Reading.{read_file-write_file}
use apiserver_runtime_exampl.Channel.{Heap}
use apiserver_runtime_exampl.Watch.{Event, EventType}
use apiserver_runtime_exampl.JsonFile.{
  FilepathRest, RestError, wrote, encoded, notify_watchers, notify_all,
}
use apiserver_runtime_exampl.JsonFile.Handlers.{saved}

wrote-none : (w : Files × Option FsError) {d : Files} → wrote w ≡ (d, none) → w ≡ (d, none)
unfolding wrote
wrote-none (disk, none) {d} h = let same : disk ≡ d = ap (λ x. x.0) h in ap (λ x. (x, none)) same
wrote-none (disk, some e) h = let wrong = ap (λ x. x.1) h in cc

module _ {ℓ κ} {O : Type ℓ} {L : Type κ} where
  -- The disk and the channels replaced.
  abbrev pub on : FilepathRest O L → Files → Heap (Event O) → FilepathRest O L
  on f disk chans = record f { disk = disk; chans = chans }

  encoded-none :
      (f : FilepathRest O L) (p : Text) (m : Result Text Text) {d : Files}
      → encoded f p m ≡ (d, none)
      → (bytes : Text) × (m ≡ ok bytes) × (read_file d p ≡ ok bytes)
  unfolding encoded
  encoded-none f p (err e) h = let wrong = ap (λ x. x.1) h in cc
  encoded-none f p (ok bytes) {d} h = (
    bytes,
    refl,
    read_file-write_file f.disk d p bytes (wrote-none (write_file f.disk p bytes) h),
  )

  -- What a write that is followed by an event leaves.
  pub record IsWritten (f f' : FilepathRest O L) (filename : Text) (obj : O) : Type (ℓ ⊔ κ) where
    pub disk : Files
    pub chans : Heap (Event O)
    pub bytes : Text
    pub after : f' ≡ on f disk chans
    pub encodes : f.codec.encode obj ≡ ok bytes
    pub reads : read_file disk filename ≡ ok bytes

  pub saved-IsWritten {μ} :
      {A : Type μ} (t : EventType) (f f' : FilepathRest O L) (filename : Text) (obj : O)
      (answer answer' : A) (w : Files × Option RestError)
      → encoded f filename (f.codec.encode obj) ≡ w
      → saved t obj answer (record f { disk = w.0 }, w.1) ≡ done (f', ok answer')
      → IsWritten f f' filename obj
  unfolding saved notify_watchers
  saved-IsWritten t f f' filename obj answer answer' (d, some e) enc ran =
      let wrong = ap (λ x. x.1) (done-injective ran) in cc
  saved-IsWritten t f f' filename obj answer answer' (d, none) enc ran =
      let (g, told, same) =
        >>=-eq-done
          (notify_watchers (record f { disk = d }) (record { event_type = t; object = obj })) _
          ran in
      let (h, _, step) =
        >>=-eq-done (notify_all f.watchers (record { event_type = t; object = obj }) f.chans) _
          told in
      let (bytes, enc', reads) = encoded-none f filename (f.codec.encode obj) enc in
      record {
        disk = d;
        chans = h;
        bytes = bytes;
        after = sym (ap (λ x. x.0) (done-injective same)) ∙ sym (done-injective step);
        encodes = enc';
        reads = reads;
      }

  pub saved-answer {μ} :
      {A : Type μ} (t : EventType) (f' : FilepathRest O L) (obj : O) (answer answer' : A)
      (w : FilepathRest O L × Option RestError)
      → saved t obj answer w ≡ done (f', ok answer')
      → answer' ≡ answer
  unfolding saved
  saved-answer t f' obj answer answer' (f, some e) ran =
      let wrong = ap (λ x. x.1) (done-injective ran) in cc
  saved-answer t f' obj answer answer' (f, none) ran =
      let (g, _, same) =
        >>=-eq-done (notify_watchers f (record { event_type = t; object = obj })) _ ran in
      let both = ap (λ x. x.1) (done-injective same) in sym cc
