-- ===== src/Db/Schema.antt =====
-- The database of sql/create_db.sql: its tables, with the columns that the Go code reads or
-- writes, and the faults of the connection to it. Times are TIMESTAMPTZ in microseconds. A CHAR(1)
-- flag is its one byte, another CHAR(n) column holds its value padded with blanks.
use boltcard.Prelude.{ℕ, ◌-◌, ◌*◌, ◌^◌, Bool, List, [], Option, String, ◌&&◌, leb}
use boltcard.Prelude.Int.{ℤ, pos, pos_part, neg_part}
use boltcard.Text.{Text}

abbrev pub second : ℕ
second = 1000000

-- INTERVAL '1 DAY'
abbrev pub one_day : ℕ
one_day = 86400 * second

pub record CardRow : Type 0 where
  pub card_id : ℕ
  pub k0_auth_key : Text
  pub k2_cmac_key : Text
  pub k3 : Text
  pub k4 : Text
  pub uid : Text
  pub last_counter_value : ℕ
  pub lnurlw_request_timeout_sec : ℕ
  pub lnurlw_enable : ℕ
  pub tx_limit_sats : ℤ
  pub day_limit_sats : ℤ
  pub lnurlp_enable : ℕ
  pub card_name : Text
  pub email_address : Text
  pub email_enable : ℕ
  pub uid_privacy : ℕ
  pub one_time_code : Text
  pub one_time_code_expiry : ℕ
  pub one_time_code_used : ℕ
  pub allow_negative_balance : ℕ
  pub pin_enable : ℕ
  pub pin_number : Text
  pub pin_limit_sats : ℤ
  pub wiped : ℕ

pub record PaymentRow : Type 0 where
  pub card_payment_id : ℕ
  pub card_id : ℕ
  pub lnurlw_k1 : Text
  pub lnurlw_request_time : ℕ
  pub ln_invoice : Text
  pub amount_msats : Option ℕ
  pub paid_flag : ℕ
  pub payment_time : Option ℕ
  pub payment_status : String
  pub failure_reason : String
  pub payment_status_time : Option ℕ
  pub ntfy_flag : ℕ
  pub ntfy_ts : Option ℕ
  pub ntfy_token : Text

pub record ReceiptRow : Type 0 where
  pub card_receipt_id : ℕ
  pub card_id : ℕ
  pub ln_invoice : Text
  pub r_hash_hex : Text
  pub amount_msats : ℕ
  pub receipt_status : String
  pub receipt_status_time : ℕ

-- The tables, with the next value of each identity column. `payments` has the newest row first.
pub record Tables : Type 0 where
  pub cards : List CardRow
  pub payments : List PaymentRow
  pub receipts : List ReceiptRow
  pub settings : List (String × Text)
  pub next_card_id : ℕ
  pub next_payment_id : ℕ
  pub next_receipt_id : ℕ

-- What happens to one round trip to the server: it is answered, it is refused and has no effect,
-- or it takes effect and the answer is lost.
pub data Fault : Type 0 where
  fine refused reply_lost : Fault

-- `setting_entry`, with its name.
pub record SettingEntry : Type 0 where
  pub name : String
  pub value : Text
  pub fetched_at : ℕ

-- `setting_cache`: the values held, the newest first, and how long one is reused.
pub record SettingCache : Type 0 where
  pub entries : List SettingEntry
  pub ttl : ℕ

-- The server's tables, the service's held settings, the time that NOW() and time.Now() give, and
-- the faults of the round trips to come.
pub record Db : Type 0 where
  pub tables : Tables
  pub cache : SettingCache
  pub now : ℕ
  pub faults : List Fault

-- The non-nil `error` values: of the connection, sql.ErrNoRows, a violated constraint, and the
-- code's own messages.
pub data Error : Type 0 where
  failed no_rows violation : Error
  message : String → Error

-- The columns of type INT hold 32-bit integers; a value out of range is an error.
abbrev pub fits_int4 : ℤ → Bool
fits_int4 n = leb (pos_part n) (2 ^ 31 - 1) && leb (neg_part n) (2 ^ 31)

-- The struct `Card`. A query that does not select a column leaves its zero value.
pub record Card : Type 0 where
  pub card_id : ℕ
  pub k0_auth_key : Text
  pub k2_cmac_key : Text
  pub k3 : Text
  pub k4 : Text
  pub db_uid : Text
  pub last_counter_value : ℕ
  pub lnurlw_request_timeout_sec : ℕ
  pub lnurlw_enable : ℕ
  pub tx_limit_sats : ℤ
  pub day_limit_sats : ℤ
  pub email_address : Text
  pub email_enable : ℕ
  pub uid_privacy : ℕ
  pub card_name : Text
  pub allow_negative_balance : ℕ
  pub pin_enable : ℕ
  pub pin_number : Text
  pub pin_limit_sats : ℤ

-- `Card{}`, with 0 for a flag that is the empty string.
abbrev pub zero_card : Card
zero_card = record {
  card_id = 0;
  k0_auth_key = [];
  k2_cmac_key = [];
  k3 = [];
  k4 = [];
  db_uid = [];
  last_counter_value = 0;
  lnurlw_request_timeout_sec = 0;
  lnurlw_enable = 0;
  tx_limit_sats = pos 0;
  day_limit_sats = pos 0;
  email_address = [];
  email_enable = 0;
  uid_privacy = 0;
  card_name = [];
  allow_negative_balance = 0;
  pin_enable = 0;
  pin_number = [];
  pin_limit_sats = pos 0;
}

-- The struct `Payment`, as `Get_payment_k1` fills it.
pub record Payment : Type 0 where
  pub card_payment_id : ℕ
  pub card_id : ℕ
  pub paid_flag : ℕ

pub record CardWipeInfo : Type 0 where
  pub id : ℕ
  pub k0 : Text
  pub k1 : Text
  pub k2 : Text
  pub k3 : Text
  pub k4 : Text
  pub uid : Text
