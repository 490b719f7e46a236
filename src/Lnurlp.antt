-- ===== src/Lnurlp.antt =====
-- The package lnurlp: the lightning address of a card, its answer and the callback that makes an
-- invoice (lnurlp/metadata.go, lnurlp/lnurlp_request.go, lnurlp/lnurlp_callback.go).
pub mod Address
pub mod Receipt
use boltcard.Prelude.{
  ℕ, ◌/◌, ◌%◌, ◌++◌, Bool, true, false, not, ◌||◌, List, [], Option, none, some, String, ◌==◌,
  if◌then◌else◌,
}
use boltcard.Prelude.Int.{ℤ, pos, pos_part, quot_ℤ, ltb_ℤ}
use boltcard.Text.{Text, codes, text_eq}
use boltcard.Text.Hex.{encode_to_string}
use boltcard.Text.Json.{json_string}
use boltcard.Text.Numbers.{atoi}
use boltcard.Text.Url.{path_escape}
use boltcard.Http.{Request, get_param}
use boltcard.Db.Schema.{message}
use boltcard.Db.Monad.{M, pure, ◌>>=◌, ◌>>◌}
use boltcard.Db.Settings.{get_setting}
use boltcard.Db.Cards.{get_card_count_for_name_lnurlp, get_card_id_for_name_lnurlp}
use boltcard.Db.Receipts.{insert_receipt}
use boltcard.Lnd.{Node}
use boltcard.Lnd.Invoices.{add_invoice}
use boltcard.Lnurlw.Tap.{or_raise, ensure}

abbrev pub min_sendable_msat : ℕ
min_sendable_msat = 1000

abbrev pub max_sendable_msat : ℕ
max_sendable_msat = 1000000000

-- [["text/identifier","name@domain"],["text/plain","bolt card deposit"]]
unfoldable pub metadata_json : Text → Text → Text
metadata_json name domain =
    codes "[[\"text/identifier\","
    ++ json_string (name ++ codes "@" ++ domain)
    ++ codes "],[\"text/plain\",\"bolt card deposit\"]]"

-- The JSON of the answer; `status`, `tag` and `commentAllowed` are constant.
pub record PayRequest : Type 0 where
  pub callback : Text
  pub max_sendable : ℕ
  pub min_sendable : ℕ
  pub metadata : Text

-- The body where the function is enabled; nothing is written where it is not.
abbrev pub if_enabled : {A : Type 0} → M A → M (Option A)
unfolding text_eq
if_enabled m = do
  function_lnurlp ← get_setting "FUNCTION_LNURLP"
  if text_eq function_lnurlp (codes "ENABLE")
      then (do answer ← m; pure (some answer))
      else pure none

unfoldable pub pay_request : Text → Request → M PayRequest
unfolding text_eq
pay_request name r = do
  domain ← get_setting "HOST_DOMAIN"
  ensure (text_eq r.host domain) (message "wrong host domain")
  card_count ← get_card_count_for_name_lnurlp name
  ensure (card_count == 1) (message "not one enabled card with that name")
  pure (record {
    callback = codes "https://" ++ domain ++ codes "/lnurlp/" ++ path_escape name;
    max_sendable = max_sendable_msat;
    min_sendable = min_sendable_msat;
    metadata = metadata_json name domain;
  })

-- `Response`. The route gives `name`.
unfoldable pub response : Text → Request → M (Option PayRequest)
response name r = if_enabled (pay_request name r)

-- The payment request of the answer, and the hash that `Monitor_invoice_state` is started with.
pub record Deposit : Type 0 where
  pub pr : Text
  pub r_hash : Text

-- amount_msat % 1000 != 0; the amount is positive.
unfoldable pub deposit : Node → Text → Request → M Deposit
unfolding text_eq
deposit node name r = do
  card_id ← get_card_id_for_name_lnurlp name
  domain ← get_setting "HOST_DOMAIN"
  ensure (text_eq r.host domain) (message "wrong host domain")
  amount_msat ← or_raise (atoi (get_param "amount" r)) (message "amount is not a valid integer")
  ensure
      (not (ltb_ℤ amount_msat (pos min_sendable_msat) || ltb_ℤ (pos max_sendable_msat) amount_msat))
      (message "amount is out of range")
  ensure (pos_part amount_msat % 1000 == 0) (message "amount is not a whole number of sats")
  (pr, r_hash) ← add_invoice node (quot_ℤ amount_msat 1000) (metadata_json name domain)
  insert_receipt card_id pr (encode_to_string r_hash) (pos_part amount_msat)
  pure (record { pr = pr; r_hash = r_hash })

-- `Callback`
unfoldable pub callback : Node → Text → Request → M (Option Deposit)
callback node name r = if_enabled (deposit node name r)
