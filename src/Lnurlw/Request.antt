-- ===== src/Lnurlw/Request.antt =====
-- `Response` of lnurlw/lnurlw_request.go: a tap is answered with a withdraw request, whose `k1` is
-- recorded as a new payment.
use boltcard.Prelude.{suc, ◌*◌, ◌++◌, Option, none, some, ◌==◌, if◌then◌else◌}
use boltcard.Prelude.Int.{ℤ, pos, negsuc, sub_ℕ}
use boltcard.Text.{Text, codes, text_eq, has_suffix}
use boltcard.Text.Numbers.{atoi, wrap_int64}
use boltcard.Externals.{Externals}
use boltcard.Crypto.{create_k1}
use boltcard.Http.{Request}
use boltcard.Db.Schema.{Card, failed, message}
use boltcard.Db.Monad.{M, pure, ◌>>=◌, ◌>>◌}
use boltcard.Db.Settings.{get_setting}
use boltcard.Db.Cards.{get_card_from_card_id}
use boltcard.Db.Payments.{insert_payment}
use boltcard.Lnurlw.Tap.{or_raise, ensure, parse_request}

-- The JSON of a withdraw request; `tag` is constant.
pub record WithdrawRequest : Type 0 where
  pub callback : Text
  pub k1 : Text
  pub default_description : Text
  pub min_withdrawable : ℤ
  pub max_withdrawable : ℤ
  pub pin_limit : Option ℤ

-- n * 1000 as a 64-bit int.
unfoldable pub to_msats : ℤ → ℤ
unfolding wrap_int64
to_msats (pos n) = wrap_int64 (pos (n * 1000))
to_msats (negsuc n) = wrap_int64 (sub_ℕ 0 (suc n * 1000))

callback_url : Text → Text
callback_url host =
    if has_suffix host (codes ".onion")
    then codes "http://" ++ host ++ codes "/cb"
    else codes "https://" ++ host ++ codes "/cb"

pin_limit_of : Card → Option ℤ
unfolding to_msats
pin_limit_of c = if c.pin_enable == b'Y' then some (to_msats c.pin_limit_sats) else none

-- An error is answered by `resp_err.Write`. `random` is what `Create_k1` reads.
unfoldable pub response : Externals → Option Text → Request → M WithdrawRequest
unfolding callback_url pin_limit_of text_eq
response x random req = do
  env_host_domain ← get_setting "HOST_DOMAIN"
  ensure (text_eq req.host env_host_domain) (message "wrong host domain")
  card_id ← parse_request x req
  lnurlw_k1 ← or_raise (create_k1 random) failed
  insert_payment card_id lnurlw_k1
  min_withdraw_sats_str ← get_setting "MIN_WITHDRAW_SATS"
  min_withdraw_sats ← or_raise (atoi min_withdraw_sats_str) failed
  max_withdraw_sats_str ← get_setting "MAX_WITHDRAW_SATS"
  max_withdraw_sats ← or_raise (atoi max_withdraw_sats_str) failed
  c ← get_card_from_card_id card_id
  default_description ← get_setting "DEFAULT_DESCRIPTION"
  pure (record {
    callback = callback_url req.host;
    k1 = lnurlw_k1;
    default_description = default_description;
    min_withdrawable = to_msats min_withdraw_sats;
    max_withdrawable = to_msats max_withdraw_sats;
    pin_limit = pin_limit_of c;
  })
