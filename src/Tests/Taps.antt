-- ===== src/Tests/Taps.antt =====
-- The theorem on an accepted tap at a concrete input.
use boltcard.Prelude.{◌≡◌, ◌≢◌, ◌++◌, refl, [], ◌∷◌, some, replicate}
use boltcard.Text.{Text, codes, text_eq}
use boltcard.Text.Hex.{decode_string, encode_to_string}
use boltcard.Externals.{Externals, fails}
use boltcard.Http.{Request, get_param, first_value}
use boltcard.Db.Settings.{get_setting, held, find_entry, read_setting, lookup_setting}
use boltcard.Crypto.{aes_decrypt, aes_cmac, is_aes_key, odd_bytes}
use boltcard.Db.Schema.{Db, Card, zero_card}
use boltcard.Db.Monad.{ok, open_db, query, exec}
use boltcard.Db.Rows.{count_rows}
use boltcard.Db.Cards.{check_and_update_counter, counter_sql, has_uid}
use boltcard.Lnurlw.Tap.{
  accept_tap, card_cmac_valid, check_cmac, sv2, counter_value, get_p_c, decrypted, parse_request,
}
use boltcard.Lnurlw.Tap.SetUp.{tap_params, set_up_tap_refused}
use boltcard.Lnurlw.Tap.Accepted.{Accepted, accept_tap-Accepted}
use boltcard.Tests.{card_key, example_card, example_db}

-- A MAC of ones.
abbrev tap_externals : Externals
tap_externals = record {
  decrypt_block = λ key block. block;
  cmac_sum = λ key text. some (replicate 16 1);
  decodepay = λ pr. fails;
}

abbrev tapped_card : Card
tapped_card = record zero_card { card_id = 1; k2_cmac_key = card_key; lnurlw_enable = b'Y' }

abbrev tap_uid : Text
tap_uid = 0x04 ∷ 0xa1 ∷ 0xb2 ∷ 0xc3 ∷ 0xd4 ∷ 0xe5 ∷ 0xf6 ∷ []

accepted :
    (accept_tap tap_externals tap_uid (6 ∷ 0 ∷ 0 ∷ []) (replicate 8 1) tapped_card example_db).0
    ≡ ok 1
unfolding accept_tap card_cmac_valid check_cmac sv2 decode_string aes_cmac is_aes_key odd_bytes
    counter_value check_and_update_counter open_db exec counter_sql count_rows
accepted = refl

accept_tap-Accepted_example :
    (1 ≡ tapped_card.card_id)
    × Accepted tap_externals tap_uid
        (6 ∷ 0 ∷ 0 ∷ [])
        (replicate 8 1)
        example_db.now
        tapped_card
        example_db.tables
        (accept_tap tap_externals tap_uid
          (6 ∷ 0 ∷ 0 ∷ [])
          (replicate 8 1)
          tapped_card
          example_db).1.tables
accept_tap-Accepted_example =
    accept_tap-Accepted tap_externals tap_uid (6 ∷ 0 ∷ 0 ∷ []) (replicate 8 1) tapped_card 1
      example_db accepted

-- A card with a blank UID, and the tap whose CMAC its key gives.
abbrev blank_db : Db
blank_db = record example_db {
  tables = record example_db.tables {
    cards = record example_card { uid = []; last_counter_value = 0 } ∷ [];
    settings = ("AES_DECRYPT_KEY", card_key) ∷ example_db.tables.settings;
  };
}

abbrev tap_request : Request
tap_request = record {
  host = codes "card.example";
  remote_addr = codes "192.0.2.1";
  params = ("p", codes "c704a1b2c3d4e5f60600000000000000") ∷ ("c", codes "0101010101010101") ∷ [];
  headers = [];
}

abbrev tap_block : Text
tap_block = 0xc7 ∷ (tap_uid ++ (6 ∷ 0 ∷ 0 ∷ []) ++ replicate 5 0)

is_tap :
    (decrypted tap_externals (tap_params tap_request).0 (tap_params tap_request).1 blank_db).0
    ≡ ok (tap_block, replicate 8 1)
unfolding decrypted get_p_c get_param first_value text_eq decode_string get_setting held find_entry
    read_setting lookup_setting open_db query aes_decrypt is_aes_key
is_tap = refl

set_up_tap_refused_example : (parse_request tap_externals tap_request blank_db).0 ≢ ok 1
unfolding encode_to_string
set_up_tap_refused_example =
    set_up_tap_refused tap_externals tap_request tap_block (replicate 8 1) 1 blank_db is_tap
      (unfold count_rows has_uid text_eq in refl)
