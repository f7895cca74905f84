-- ===== src/DataServer/Tests.antt =====
-- A client that is made and started.
use apiserver_runtime_exampl.Base.{ℕ, suc, refl, false, none, some, [], Text, codes, Result, ok}
use apiserver_runtime_exampl.DataServer.{Config, Client, new, start}
use apiserver_runtime_exampl.DataServer.Stopped.{Reached, made, started}

abbrev cfg : Config
cfg = record {
  address = codes "ds";
  username = [];
  password = [];
  proxy = false;
  no_tls = false;
  tls_ca = [];
  tls_cert = [];
  tls_key = [];
  skip_verify = false;
  insecure = false;
  max_msg_size = 0;
}

-- The network counts the connections.
abbrev dial : ℕ → Text → ℕ × Result Text ℕ
dial w address = (suc w, ok w)

abbrev close : ℕ → ℕ → ℕ
close w conn = w

abbrev client : Client
client = record { cfg = cfg; cancel = none; conn = none; dsclient = none }

client-Reached : Reached dial (start dial 0 client).1
unfolding new
client-Reached = started 0 client (made (some cfg) client refl)
