-- ===== src/Lnd.antt =====
-- lnd/lnd.go: what the service asks of the lightning node. The files, the macaroon, gRPC and the
-- names of the enumerations of lnrpc are parameters, and so is the float64 arithmetic of the fee
-- limit. While a call to the node is out, other requests make calls to the database.
pub mod Invoices
pub mod Pay
pub mod Reports
pub mod Unsent
use boltcard.Prelude.{ℕ, suc, ◌*◌, ◌-◌, ◌++◌, List, [], ◌∷◌, Option, none, some, Bool, String, ◌^◌}
use boltcard.Prelude.Int.{ℤ, pos, negsuc}
use boltcard.Text.{Text, codes}
use boltcard.Text.Hex.{encode_to_string}
use boltcard.Text.Numbers.{itoa, wrap_int64}
use boltcard.Db.Schema.{failed}
use boltcard.Db.Monad.{Result, ok, M, pure, raise, ◌>>=◌, ◌>>◌}
use boltcard.Db.Calls.{Call, run}
use boltcard.Lnurlw.Tap.{or_raise, ensure}

-- What `Recv` gives, call by call: an update of the numbers of its status and its failure reason,
-- the end of the stream, or another error, the deadline of its context among them. Each comes with
-- the calls that other requests make until then.
pub data Stream : Type 0 where
  ends : List Call → Stream
  breaks : List Call → Stream
  sends : List Call → ℤ → ℤ → Stream → Stream

-- The credentials and the target of a connection.
pub record Connection : Type 0 where
  pub target : Text
  pub macaroon : Text

pub record SendPaymentRequest : Type 0 where
  pub payment_request : Text
  pub no_inflight_updates : Bool
  pub timeout_seconds : ℕ
  pub fee_limit_sat : ℤ

pub record Invoice : Type 0 where
  pub value : ℤ
  pub description_hash : Text
  pub expiry : ℤ

-- The calls that other requests make meanwhile come with the answer of a call that waits. The
-- timeout of its context is in nanoseconds.
pub record Node : Type 1 where
  pub read_file : Text → Option Text
  pub is_macaroon : Text → Bool
  pub is_certificate : Text → Text → Bool
  pub dial : Text → Connection → List Call × Bool
  pub add_invoice : Connection → Invoice → List Call × Option (Text × Text)
  pub subscribe_single_invoice : Connection → ℤ → Text → List Call × Option Stream
  pub send_payment : Connection → ℤ → SendPaymentRequest → List Call × Option Stream
  pub invoice_state_name : ℤ → String
  pub payment_status_name : ℤ → String
  pub failure_reason_name : ℤ → String
  pub sha256 : Text → Text
  pub Float : Type 0
  pub parse_float : Text → Option Float
  -- int64((percent / 100) * (float64(msats) / 1000))
  pub fee_limit_product : Float → ℤ → ℤ

-- What other requests do to the database.
abbrev pub meanwhile : List Call → M (Unit {0})
meanwhile others db = (ok tt, run db others)

-- time.Duration(n) * time.Second
unfoldable pub seconds : ℤ → ℤ
seconds (pos n) = wrap_int64 (pos (n * 10 ^ 9))
seconds (negsuc n) = wrap_int64 (negsuc (suc n * 10 ^ 9 - 1))

-- `newCreds`: the hex text of the macaroon.
unfoldable pub new_creds : Text → Text
new_creds bytes = encode_to_string bytes

unfoldable pub get_grpc_conn : Node → Text → ℤ → Text → Text → M Connection
unfolding new_creds
get_grpc_conn node hostname port tls_file macaroon_file = do
  macaroon_bytes ← or_raise (node.read_file macaroon_file) failed
  ensure (node.is_macaroon macaroon_bytes) failed
  ensure (node.is_certificate tls_file hostname) failed
  let connection : Connection = record {
    target = hostname ++ codes ":" ++ itoa port;
    macaroon = new_creds macaroon_bytes;
  }
  let (others, connected) : List Call × Bool = node.dial tls_file connection
  meanwhile others
  ensure connected failed
  pure connection
