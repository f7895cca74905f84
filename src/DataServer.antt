-- ===== src/DataServer.antt =====
-- pkg/dataserver/client/client.go: the client of a data server. What gRPC does is a parameter: a
-- connection is its handle, and the state `W` is the network.
pub mod Stopped
mod Tests
use apiserver_runtime_exampl.Base.{
  ℕ, Bool, Option, none, some, Text, is_nil, if◌then◌else◌, Outcome, done, panicked, Result, ok,
  err,
}

pub record Config : Type 0 where
  pub address : Text
  pub username : Text
  pub password : Text
  pub proxy : Bool
  pub no_tls : Bool
  pub tls_ca : Text
  pub tls_cert : Text
  pub tls_key : Text
  pub skip_verify : Bool
  pub insecure : Bool
  pub max_msg_size : ℕ

-- `client`; the fields that are not set are nil.
pub record Client : Type 0 where
  pub cfg : Config
  pub cancel : Option ℕ
  pub conn : Option ℕ
  pub dsclient : Option ℕ

pub data ClientError : Type 0 where
  empty_config empty_address : ClientError

-- `New`, with a configuration that may be nil.
unfoldable pub new : Option Config → Result ClientError Client
new none = err empty_config
new (some cfg) =
    if is_nil cfg.address
    then err empty_address
    else ok (record { cfg = cfg; cancel = none; conn = none; dsclient = none })

-- `GetAddress`
unfoldable pub get_address : Client → Text
get_address r = r.cfg.address

module _ {W E : Type 0} (dial : W → Text → W × Result E ℕ) where
  dialled : Client → W × Result E ℕ → W × Client × Option E
  dialled r (w, err e) = (w, record r { conn = none }, some e)
  dialled r (w, ok conn) = (w, record r { conn = some conn; dsclient = some conn }, none)

  -- `Start`; the context that it cancels when it returns is its own.
  unfoldable pub start : W → Client → W × Client × Option E
  unfolding dialled
  start w r = dialled r (dial w (get_address r))

module _ {W : Type 0} (close : W → ℕ → W) where
  -- `r.cancel()`: a function that is nil panics.
  cancelled : W → Client → Option ℕ → Outcome (W × Client)
  cancelled w r none = panicked
  cancelled w r (some f) = done (w, r)

  closed : W → Client → Option ℕ → Outcome (W × Client)
  unfolding cancelled
  closed w r none = panicked
  closed w r (some conn) = cancelled (close w conn) r r.cancel

  -- `Stop`
  unfoldable pub stop : W → Client → Outcome (W × Client)
  unfolding closed
  stop w r = closed w r r.conn

-- Every other method passes its request to the client of the connection, `rpc`.
module _ {W I O : Type 0} (rpc : W → ℕ → I → O) where
  called : W → Option ℕ → I → Outcome O
  called w none req = panicked
  called w (some c) req = done (rpc w c req)

  -- `GetDataStore`, `CreateDataStore`, `SetIntent` and so on.
  unfoldable pub call : W → Client → I → Outcome O
  unfolding called
  call w r req = called w r.dsclient req
