-- ===== src/Tests.antt =====
-- One database for the runs below: a card, and a withdraw request for it that is not used yet.
pub mod Api
pub mod Examples
pub mod Limits
pub mod Node
pub mod Payments
pub mod Service
pub mod Taps
pub mod Whole
use boltcard.Prelude.{ℕ, ◌*◌, ◌∷◌, List, [], none, String}
use boltcard.Prelude.Int.{ℤ, pos}
use boltcard.Text.{Text, codes, pad}
use boltcard.Db.Schema.{CardRow, PaymentRow, ReceiptRow, Tables, Db, second}

abbrev pub card_key : Text
card_key = codes "00112233445566778899aabbccddeeff"

abbrev pub example_card : CardRow
example_card = record {
  card_id = 1;
  k0_auth_key = card_key;
  k2_cmac_key = card_key;
  k3 = card_key;
  k4 = card_key;
  uid = codes "04a1b2c3d4e5f6";
  last_counter_value = 5;
  lnurlw_request_timeout_sec = 60;
  lnurlw_enable = b'Y';
  tx_limit_sats = pos 1000;
  day_limit_sats = pos 5000;
  lnurlp_enable = b'Y';
  card_name = codes "blue card";
  email_address = [];
  email_enable = b'N';
  uid_privacy = b'N';
  one_time_code = pad 32 [];
  one_time_code_expiry = 0;
  one_time_code_used = b'Y';
  allow_negative_balance = b'Y';
  pin_enable = b'Y';
  pin_number = codes "1234";
  pin_limit_sats = pos 100;
  wiped = b'N';
}

abbrev pub example_payment : PaymentRow
example_payment = record {
  card_payment_id = 1;
  card_id = 1;
  lnurlw_k1 = card_key;
  lnurlw_request_time = 100 * second;
  ln_invoice = [];
  amount_msats = none;
  paid_flag = b'N';
  payment_time = none;
  payment_status = "";
  failure_reason = "";
  payment_status_time = none;
  ntfy_flag = b'N';
  ntfy_ts = none;
  ntfy_token = pad 32 [];
}

abbrev pub example_receipt : ReceiptRow
example_receipt = record {
  card_receipt_id = 1;
  card_id = 1;
  ln_invoice = [];
  r_hash_hex = codes "aa";
  amount_msats = 700000;
  receipt_status = "SETTLED";
  receipt_status_time = 50 * second;
}

abbrev pub example_db_with : CardRow → PaymentRow → Db
example_db_with c p = record {
  tables = record {
    cards = c ∷ [];
    payments = p ∷ [];
    receipts = example_receipt ∷ [];
    settings =
        ("HOST_DOMAIN", codes "card.example")
        ∷ ("FUNCTION_LNDHUB", [])
        ∷ ("FUNCTION_NTFY", [])
        ∷ ("LN_TESTNODE", [])
        ∷ [];
    next_card_id = 2;
    next_payment_id = 2;
    next_receipt_id = 2;
  };
  cache = record { entries = []; ttl = 0 };
  now = 110 * second;
  faults = [];
}

abbrev pub example_db : Db
example_db = example_db_with example_card example_payment
