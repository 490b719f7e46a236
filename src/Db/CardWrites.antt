-- ===== src/Db/CardWrites.antt =====
-- Creating, changing and wiping a card in db/db.go.
pub mod Live
use boltcard.Prelude.{ℕ, suc, ◌+◌, [], ◌∷◌, Bool, true, false, ◌&&◌, ◌==◌, leb, length}
use boltcard.Prelude.Int.{ℤ, pos}
use boltcard.Text.{Text, codes, cut, fits, pad, text_eq}
use boltcard.Db.Schema.{CardRow, CardWipeInfo, fits_int4, one_day}
use boltcard.Db.Monad.{
  ok, M, pure, ◌>>=◌, ◌>>◌, query, open_db, exec, expect_one, Statement, checked,
}
use boltcard.Db.Rows.{scan}
use boltcard.Db.Settings.{get_setting}
use boltcard.Db.Cards.{update_cards, latest_card}

abbrev pub yn : Bool → ℕ
yn true = b'Y'
yn false = b'N'

-- The arguments that `Insert_card` and `Insert_card_with_pin` share.
pub record NewCard : Type 0 where
  pub one_time_code : Text
  pub k0_auth_key : Text
  pub k2_cmac_key : Text
  pub k3 : Text
  pub k4 : Text
  pub tx_limit_sats : ℤ
  pub day_limit_sats : ℤ
  pub lnurlw_enable : Bool
  pub card_name : Text
  pub uid_privacy : Bool
  pub allow_neg_bal : Bool

-- The pin columns: given, or their defaults in sql/create_db.sql.
pub record Pin : Type 0 where
  pub pin_enable : Bool
  pub pin_number : Text
  pub pin_limit_sats : ℤ

abbrev pub default_pin : Pin
default_pin = record { pin_enable = false; pin_number = codes "0000"; pin_limit_sats = pos 0 }

abbrev pub named : Text → CardRow → Bool
named card_name c = text_eq c.card_name card_name

abbrev pub wiped_row : CardRow → CardRow
wiped_row c = record c {
  lnurlw_enable = b'N';
  lnurlp_enable = b'N';
  email_enable = b'N';
  wiped = b'Y';
}

-- UPDATE cards SET lnurlw_enable = 'N', ..., wiped = 'Y' WHERE card_name = $1
unfoldable pub wipe_sql : Text → Statement
unfolding update_cards
wipe_sql card_name = update_cards (named card_name) wiped_row

unfoldable pub new_row : ℕ → NewCard → Pin → ℕ → CardRow
new_row id n p now = record {
  card_id = id;
  k0_auth_key = pad 32 n.k0_auth_key;
  k2_cmac_key = pad 32 n.k2_cmac_key;
  k3 = pad 32 n.k3;
  k4 = pad 32 n.k4;
  uid = [];
  last_counter_value = 0;
  lnurlw_request_timeout_sec = 60;
  lnurlw_enable = yn n.lnurlw_enable;
  tx_limit_sats = n.tx_limit_sats;
  day_limit_sats = n.day_limit_sats;
  lnurlp_enable = b'N';
  card_name = cut 100 n.card_name;
  email_address = [];
  email_enable = b'N';
  uid_privacy = yn n.uid_privacy;
  one_time_code = pad 32 n.one_time_code;
  one_time_code_expiry = now + one_day;
  one_time_code_used = b'N';
  allow_negative_balance = yn n.allow_neg_bal;
  pin_enable = yn p.pin_enable;
  pin_number = pad 4 p.pin_number;
  pin_limit_sats = p.pin_limit_sats;
  wiped = b'N';
}

-- The values must fit CHAR(32), CHAR(4), VARCHAR(100) and INT. Texts are UTF-8.
unfoldable pub fits_columns : NewCard → Pin → Bool
fits_columns n p =
    fits 32 n.one_time_code
    && fits 32 n.k0_auth_key
    && fits 32 n.k2_cmac_key
    && fits 32 n.k3
    && fits 32 n.k4
    && fits 100 n.card_name
    && fits_int4 n.tx_limit_sats
    && fits_int4 n.day_limit_sats
    && fits 4 p.pin_number
    && fits_int4 p.pin_limit_sats

unfoldable pub insert_card_sql : NewCard → Pin → Statement
insert_card_sql n p =
    checked (λ _. fits_columns n p)
      λ now t. ok (
        record t {
          cards = new_row t.next_card_id n p now ∷ t.cards;
          next_card_id = suc t.next_card_id;
        },
        1,
      )

unfoldable pub insert_card_with_pin : NewCard → Pin → M (Unit {0})
insert_card_with_pin n p = do
  open_db
  exec (wipe_sql n.card_name)
  count ← exec (insert_card_sql n p)
  expect_one "not one card record inserted" count

unfoldable pub insert_card : NewCard → M (Unit {0})
insert_card n = do
  open_db
  exec (wipe_sql n.card_name)
  count ← exec (insert_card_sql n default_pin)
  expect_one "not one card record inserted" count

wipe_info : CardRow → CardWipeInfo
wipe_info c = record {
  id = c.card_id;
  k0 = c.k0_auth_key;
  k1 = [];
  k2 = c.k2_cmac_key;
  k3 = c.k3;
  k4 = c.k4;
  uid = c.uid;
}

unfoldable pub wipe_card : Text → M CardWipeInfo
unfolding wipe_info
wipe_card card_name = do
  open_db
  exec (wipe_sql card_name)
  info ← query λ now t. scan wipe_info (latest_card (named card_name) t.cards)
  k1 ← get_setting "AES_DECRYPT_KEY"
  pure (record info { k1 = k1 })

-- card_name = $1 AND wiped = 'N'
abbrev pub live_named : Text → CardRow → Bool
live_named card_name c = text_eq c.card_name card_name && c.wiped == b'N'

unfoldable pub update_card_sql : Text → Bool → ℤ → ℤ → Statement
unfolding update_cards
update_card_sql card_name lnurlw_enable tx_limit_sats day_limit_sats =
    checked (λ _. fits_int4 tx_limit_sats && fits_int4 day_limit_sats)
      (update_cards (live_named card_name) λ c. record c {
        lnurlw_enable = yn lnurlw_enable;
        tx_limit_sats = tx_limit_sats;
        day_limit_sats = day_limit_sats;
      })

unfoldable pub update_card : Text → Bool → ℤ → ℤ → M (Unit {0})
update_card card_name lnurlw_enable tx_limit_sats day_limit_sats = do
  open_db
  count ← exec (update_card_sql card_name lnurlw_enable tx_limit_sats day_limit_sats)
  expect_one "not one card record updated" count

-- The columns of `update_card_sql`, with the pin columns of `set_pin`.
unfoldable pub update_pin_sql : Text → Bool → ℤ → ℤ → Bool → (CardRow → CardRow) → Statement
unfolding update_cards
update_pin_sql card_name lnurlw_enable tx_limit_sats day_limit_sats fits set_pin =
    checked (λ _. fits && fits_int4 tx_limit_sats && fits_int4 day_limit_sats)
      (update_cards (live_named card_name) λ c. set_pin (record c {
        lnurlw_enable = yn lnurlw_enable;
        tx_limit_sats = tx_limit_sats;
        day_limit_sats = day_limit_sats;
      }))

unfoldable pub update_card_with_pin : Text → Bool → ℤ → ℤ → Pin → M (Unit {0})
unfolding update_pin_sql
update_card_with_pin card_name lnurlw_enable tx_limit_sats day_limit_sats p = do
  open_db
  count ← exec (
      update_pin_sql card_name lnurlw_enable tx_limit_sats day_limit_sats
        (fits 4 p.pin_number && fits_int4 p.pin_limit_sats)
        λ c. record c {
          pin_enable = yn p.pin_enable;
          pin_number = pad 4 p.pin_number;
          pin_limit_sats = p.pin_limit_sats;
        })
  expect_one "not one card record updated" count

unfoldable pub update_card_with_part_pin : Text → Bool → ℤ → ℤ → Bool → ℤ → M (Unit {0})
unfolding update_pin_sql
update_card_with_part_pin card_name lnurlw_enable tx_limit_sats day_limit_sats pin_enable
      pin_limit_sats =
    do
      open_db
      count ← exec (
          update_pin_sql card_name lnurlw_enable tx_limit_sats day_limit_sats
            (fits_int4 pin_limit_sats)
            λ c. record c { pin_enable = yn pin_enable; pin_limit_sats = pin_limit_sats })
      expect_one "not one card record updated" count
