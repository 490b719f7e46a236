-- ===== src/Db/Cards.antt =====
-- The reads of the cards table in db/db.go, and the counter and one-time-code updates.
pub mod Counter
use boltcard.Prelude.{
  ℕ, List, [], ◌∷◌, map, Option, none, some, Bool, ◌&&◌, ◌==◌, ltb, leb, if◌then◌else◌, length,
}
use boltcard.Text.{Text, text_eq, bpchar_eq}
use boltcard.Db.Schema.{CardRow, Card, zero_card}
use boltcard.Db.Monad.{
  ok, M, pure, ◌>>=◌, ◌>>◌, query, open_db, exec, expect_one, Statement, checked,
}
use boltcard.Db.Rows.{select_row, select_rows, count_rows, update_rows, scan}
use boltcard.Db.Payments.{card_with_id}

unfoldable pub update_cards : (CardRow → Bool) → (CardRow → CardRow) → Statement
update_cards p f now t = ok (record t { cards = update_rows p f t.cards }, count_rows p t.cards)

-- one_time_code = $1 AND one_time_code_expiry > NOW() AND one_time_code_used = 'N' AND wiped = 'N'
unfoldable pub is_new_card : ℕ → Text → CardRow → Bool
is_new_card now one_time_code c =
    bpchar_eq c.one_time_code one_time_code
    && ltb now c.one_time_code_expiry
    && c.one_time_code_used == b'N'
    && c.wiped == b'N'

new_card_fields : CardRow → Card
new_card_fields c = record zero_card {
  k0_auth_key = c.k0_auth_key;
  k2_cmac_key = c.k2_cmac_key;
  k3 = c.k3;
  k4 = c.k4;
  card_name = c.card_name;
  uid_privacy = c.uid_privacy;
}

unfoldable pub use_one_time_code_sql : Text → Statement
unfolding update_cards
use_one_time_code_sql one_time_code =
    update_cards (λ c. bpchar_eq c.one_time_code one_time_code)
      λ c. record c { one_time_code_used = b'Y' }

unfoldable pub get_new_card : Text → M Card
unfolding new_card_fields
get_new_card one_time_code = do
  open_db
  c ← query λ now t. scan new_card_fields (select_row (is_new_card now one_time_code) t.cards)
  exec (use_one_time_code_sql one_time_code)
  pure c

unfoldable pub has_uid : Text → CardRow → Bool
has_uid uid c = text_eq c.uid uid && c.wiped == b'N'

unfoldable pub get_card_count_for_uid : Text → M ℕ
get_card_count_for_uid uid = do open_db; query λ now t. ok (count_rows (has_uid uid) t.cards)

unfoldable pub takes_lnurlp : Text → CardRow → Bool
takes_lnurlp name c = text_eq c.card_name name && c.lnurlp_enable == b'Y' && c.wiped == b'N'

unfoldable pub get_card_count_for_name_lnurlp : Text → M ℕ
get_card_count_for_name_lnurlp name = do
  open_db
  query λ now t. ok (count_rows (takes_lnurlp name) t.cards)

newer : CardRow → Option CardRow → CardRow
newer c none = c
newer c (some d) = if ltb c.card_id d.card_id then d else c

-- ORDER BY card_id DESC LIMIT 1
unfoldable pub latest_card : (CardRow → Bool) → List CardRow → Option CardRow
unfolding newer
latest_card p [] = none
latest_card p (c ∷ cs) = let rest = latest_card p cs in if p c then some (newer c rest) else rest

unfoldable pub get_card_id_for_name_lnurlp : Text → M ℕ
get_card_id_for_name_lnurlp name = do
  open_db
  query λ now t. scan (λ c. c.card_id) (latest_card (takes_lnurlp name) t.cards)

unfoldable pub has_blank_uid : CardRow → Bool
has_blank_uid c = text_eq c.uid [] && c.last_counter_value == 0 && c.wiped == b'N'

unfoldable pub get_cards_blank_uid : M (List Card)
get_cards_blank_uid = do
  open_db
  query λ now t. ok (
      map (λ c. record zero_card { card_id = c.card_id; k2_cmac_key = c.k2_cmac_key })
        (select_rows has_blank_uid t.cards))

-- `uid` is VARCHAR(14).
unfoldable pub update_card_uid_ctr_sql : ℕ → Text → ℕ → Statement
unfolding update_cards
update_card_uid_ctr_sql card_id uid ctr =
    checked (λ _. leb (length uid) 14)
      (update_cards (card_with_id card_id) λ c. record c { uid = uid; last_counter_value = ctr })

unfoldable pub update_card_uid_ctr : ℕ → Text → ℕ → M (Unit {0})
update_card_uid_ctr card_id uid ctr = do
  open_db
  count ← exec (update_card_uid_ctr_sql card_id uid ctr)
  expect_one "not one card record updated" count

unfoldable pub uid_fields : CardRow → Card
uid_fields c = record zero_card {
  card_id = c.card_id;
  k2_cmac_key = c.k2_cmac_key;
  db_uid = c.uid;
  last_counter_value = c.last_counter_value;
  lnurlw_request_timeout_sec = c.lnurlw_request_timeout_sec;
  lnurlw_enable = c.lnurlw_enable;
  tx_limit_sats = c.tx_limit_sats;
  day_limit_sats = c.day_limit_sats;
}

unfoldable pub get_card_from_uid : Text → M Card
unfolding uid_fields
get_card_from_uid card_uid = do
  open_db
  query λ now t. scan uid_fields (select_row (has_uid card_uid) t.cards)

id_fields : CardRow → Card
unfolding uid_fields
id_fields c = record (uid_fields c) {
  email_enable = c.email_enable;
  email_address = c.email_address;
  card_name = c.card_name;
  allow_negative_balance = c.allow_negative_balance;
  pin_enable = c.pin_enable;
  pin_number = c.pin_number;
  pin_limit_sats = c.pin_limit_sats;
}

unfoldable pub get_card_from_card_id : ℕ → M Card
unfolding id_fields
get_card_from_card_id card_id = do
  open_db
  query λ now t. scan id_fields (select_row (card_with_id card_id) t.cards)

name_fields : CardRow → Card
unfolding uid_fields
name_fields c = record (uid_fields c) {
  pin_enable = c.pin_enable;
  pin_limit_sats = c.pin_limit_sats;
}

unfoldable pub get_card_from_card_name : Text → M Card
unfolding name_fields
get_card_from_card_name card_name = do
  open_db
  query λ now t.
      scan name_fields (select_row (λ c. text_eq c.card_name card_name && c.wiped == b'N') t.cards)

unfoldable pub get_card_name_count : Text → M ℕ
get_card_name_count card_name = do
  open_db
  query λ now t. ok (count_rows (λ c. text_eq c.card_name card_name) t.cards)

-- WHERE card_id = $1 AND last_counter_value < $2. A counter of three bytes fits INTEGER.
unfoldable pub counter_sql : ℕ → ℕ → Statement
unfolding update_cards
counter_sql card_id new_counter_value =
    update_cards (λ c. c.card_id == card_id && ltb c.last_counter_value new_counter_value)
      λ c. record c { last_counter_value = new_counter_value }

unfoldable pub check_and_update_counter : ℕ → ℕ → M Bool
check_and_update_counter card_id new_counter_value = do
  open_db
  count ← exec (counter_sql card_id new_counter_value)
  pure (count == 1)
