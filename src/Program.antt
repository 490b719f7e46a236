-- ===== src/Program.antt =====
-- new_card_request.go: a one-time code is exchanged for the keys of a new card, once.
pub mod Once
use boltcard.Prelude.{
  ℕ, ◌+◌, ◌≡◌, ◌≢◌, refl, ◌++◌, Bool, true, false, not, ◌&&◌, List, [], ◌∷◌, Option, none, some,
  ◌==◌, ltb, arith,
}
use boltcard.Text.{Text, codes, text_eq, bpchar_eq}
use boltcard.Http.{Request, get_param}
use boltcard.Db.Schema.{
  CardRow, Card, Tables, Db, Error, no_rows, failed, violation, message, Fault, fine, refused,
  reply_lost,
}
use boltcard.Db.Monad.{
  Result, ok, err, M, pure, ◌>>=◌, ◌>>◌, query, open_db, exec, next_fault, used, on_query, on_exec,
}
use boltcard.Db.Rows.{select_row, update_rows, scan}
use boltcard.Db.Settings.{get_setting}
use boltcard.Db.Cards.{get_new_card, is_new_card, use_one_time_code_sql, update_cards}
use boltcard.Db.Calls.{wait}
use boltcard.Lnurlw.Tap.{ensure}

-- The JSON of the answer; the name and the version of the protocol are constant.
pub record NewCardResponse : Type 0 where
  pub card_name : Text
  pub lnurlw_base : Text
  pub k0 : Text
  pub k1 : Text
  pub k2 : Text
  pub k3 : Text
  pub k4 : Text
  pub uid_privacy : ℕ

-- `sql.ErrNoRows` has an answer of its own.
abbrev pub used_or_wiped : {A : Type 0} → Result A → Result A
used_or_wiped (err no_rows) =
    err (message "one time code was used or card was wiped or card does not exist")
used_or_wiped r = r

abbrev new_card_response : Text → Text → Card → NewCardResponse
new_card_response lnurlw_base k1_decrypt_key c = record {
  card_name = c.card_name;
  lnurlw_base = lnurlw_base;
  k0 = c.k0_auth_key;
  k1 = k1_decrypt_key;
  k2 = c.k2_cmac_key;
  k3 = c.k3;
  k4 = c.k4;
  uid_privacy = c.uid_privacy;
}

unfoldable pub new_card_request : Request → M NewCardResponse
unfolding text_eq
new_card_request req = do
  let a = get_param "a" req
  ensure (not (text_eq a [])) (message "a not found")
  host_domain ← get_setting "HOST_DOMAIN"
  let lnurlw_base = codes "lnurlw://" ++ host_domain ++ codes "/ln"
  c ← λ db. (used_or_wiped (get_new_card a db).0, (get_new_card a db).1)
  k1_decrypt_key ← get_setting "AES_DECRYPT_KEY"
  pure (new_card_response lnurlw_base k1_decrypt_key c)
