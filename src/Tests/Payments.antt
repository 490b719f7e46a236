-- ===== src/Tests/Payments.antt =====
-- The theorems on authorization, callbacks and approvals at concrete inputs.
use boltcard.Prelude.{
  ℕ, ◌≡◌, ◌≢◌, ◌+◌, refl, ◌∷◌, List, [], none, some, true, ◌&&◌, arith, replicate,
}
use boltcard.Prelude.Int.{pos}
use boltcard.Text.{Text, codes, pad, bpchar_eq, strip_right}
use boltcard.Externals.{Externals, returns}
use boltcard.Http.{Request, get_param, first_value}
use boltcard.Db.Schema.{Db, PaymentRow, Card, zero_card, Payment, message}
use boltcard.Db.Monad.{ok, err, open_db, query, exec, transaction, checked}
use boltcard.Db.Settings.{get_setting, held, find_entry, read_setting, lookup_setting}
use boltcard.Invoice.{decode}
use boltcard.Text.Numbers.{atoi}
use boltcard.Text.Hex.{encode_to_string}
use boltcard.Db.Approvals.{
  get_payment_approval, approve_payment_by_token, approve_payment_by_token_sql, awaits_answer,
  create_payment_ntfy_token, create_payment_ntfy_token_sql, random_hex_16,
}
use boltcard.Db.Rows.{count_rows, select_row, update_rows}
use boltcard.Db.Payments.{
  release_payment, fail_payment, get_payment_k1, check_lnurlw_timeout, update_payment_invoice,
  update_payment_invoice_sql, release_payment_sql, fail_payment_sql,
}
use boltcard.Db.Payments.Ended.{release_payment-frees, to_release}
use boltcard.Db.Totals.{
  day_total_sats, day_total_msats, spent_msats, sum_payments, counts_today, counts_in_balance,
}
use boltcard.Db.Cards.{check_and_update_counter, counter_sql, get_card_from_card_id}
use boltcard.Db.Cards.Counter.Once.{check_and_update_counter_once}
use boltcard.Db.Authorize.{authorize_payment, lock_rows, claim_sql}
use boltcard.Db.Limits.{Permitted, ClaimedFrom, authorize_payment-Permitted}
use boltcard.Db.Limits.Granted.{authorize_payment-grants}
use boltcard.Db.Calls.{
  Call, run, step, wait, waits, checks_counter, approves_by_token, authorizes_payment, claims,
}
use boltcard.Lnurlw.Callback.{
  pays_by_lnd, check_pin, pin_refused, checked_callback, lnd_payment, callback,
}
use boltcard.Lnurlw.Callback.Started.{Started, callback-Started}
use boltcard.Lnurlw.Callback.Pin.{check_pin-claims}
use boltcard.Lnurlw.Approval.{
  undecided, sends, poll, await_approval, send_ntfycation, approval_period,
}
use boltcard.Lnurlw.Approval.Sends.{Approved, await_approval-sends}
use boltcard.Lnurlw.Approval.Ends.{poll-ends}
use boltcard.Lndhub
use boltcard.Tests.{card_key, example_card, example_payment, example_db, example_db_with}

example_authorized : (authorize_payment 1 50 true example_db).0 ≡ ok (true, "")
unfolding authorize_payment open_db transaction lock_rows select_row day_total_sats day_total_msats
    exec claim_sql count_rows
example_authorized = refl

authorize_payment-Permitted_example :
    Permitted example_db.now 1 50 true example_db.tables
    × ClaimedFrom example_db.now 1 example_db.tables
        (authorize_payment 1 50 true example_db).1.tables
authorize_payment-Permitted_example =
    authorize_payment-Permitted 1 50 true "" example_db example_authorized

authorize_payment-grants_example :
    (authorize_payment 1 50 true (record example_db { faults = [] })).0 ≡ ok (true, "")
unfolding count_rows
authorize_payment-grants_example =
    authorize_payment-grants 1 50 true example_db
      (authorize_payment-Permitted 1 50 true "" example_db example_authorized).0 refl

-- Other taps of the card, and another request.
abbrev later_calls : List Call
later_calls = checks_counter 1 9 ∷ waits 5 ∷ authorizes_payment 1 50 true ∷ []

check_and_update_counter_once_example :
    (check_and_update_counter 1 6 (run (check_and_update_counter 1 6 example_db).1 later_calls)).0
    ≢ ok true
unfolding check_and_update_counter open_db exec counter_sql count_rows
check_and_update_counter_once_example =
    check_and_update_counter_once 1 6 6 later_calls example_db (omega arith) (omega arith)
      ((λ e. absurd (cc)), ((λ e. absurd (cc)), ((λ e. absurd (cc)), tt))) refl

abbrev paid_payment : PaymentRow
paid_payment = record example_payment {
  paid_flag = b'Y';
  amount_msats = some 50000;
  payment_time = some 105000000;
}

abbrev paid_db : Db
paid_db = example_db_with example_card paid_payment

release_payment-frees_example :
    day_total_msats 110000000 1 (release_payment 1 "rejected" paid_db).1.tables
        + sum_payments (λ r. to_release 1 r && counts_today 110000000 1 r) paid_db.tables.payments
      ≡ day_total_msats 110000000 1 paid_db.tables
    × spent_msats 1 (release_payment 1 "rejected" paid_db).1.tables
        + sum_payments (λ r. to_release 1 r && counts_in_balance 1 r) paid_db.tables.payments
      ≡ spent_msats 1 paid_db.tables
unfolding release_payment open_db exec release_payment_sql count_rows
release_payment-frees_example = release_payment-frees 1 1 110000000 "rejected" paid_db refl

abbrev example_externals : Externals
example_externals = record {
  decrypt_block = λ key block. block;
  cmac_sum = λ key text. some text;
  decodepay = λ pr. returns (record { m_satoshi = pos 50000; expiry = pos 3600; payee = [] });
}

abbrev example_request : Request
example_request = record {
  host = codes "card.example";
  remote_addr = codes "192.0.2.1";
  params = ("k1", card_key) ∷ ("pr", codes "lnbc1") ∷ [];
  headers = [];
}

example_started :
    (callback example_externals (λ url login password. none) example_request example_db).0
    ≡ ok (pays_by_lnd 1 (codes "lnbc1"))
unfolding authorize_payment open_db transaction lock_rows select_row day_total_sats day_total_msats
    exec claim_sql count_rows callback checked_callback get_setting held find_entry read_setting
    lookup_setting get_param first_value get_payment_k1 bpchar_eq strip_right check_lnurlw_timeout
    decode update_payment_invoice update_payment_invoice_sql checked get_card_from_card_id
    pin_refused lnd_payment update_rows
example_started = refl

callback-Started_example :
    Started example_externals example_request example_db.now example_db.tables
      (pays_by_lnd 1 (codes "lnbc1"))
      (callback example_externals (λ url login password. none) example_request example_db).1.tables
callback-Started_example =
    callback-Started example_externals (λ url login password. none) example_request
      (pays_by_lnd 1 (codes "lnbc1")) example_db example_started

-- The card's name is the login and the password of an LNDHUB account.
abbrev lndhub_db : Db
lndhub_db = record example_db {
  tables = record example_db.tables {
    cards =
        record example_card { card_name = codes "login678901234567890:password901234567890" } ∷ [];
    settings =
        ("FUNCTION_LNDHUB", codes "ENABLE")
        ∷ ("LNDHUB_URL", codes "https://hub")
        ∷ example_db.tables.settings;
  };
}

abbrev example_holder : Card
example_holder = record zero_card {
  card_id = 1;
  pin_enable = b'Y';
  pin_number = codes "1234";
  pin_limit_sats = pos 100;
}

abbrev named_payment : Payment
named_payment = record { card_payment_id = 1; card_id = 1; paid_flag = b'N' }

check_pin-claims_example :
    ((check_pin named_payment example_holder 200 (codes "0000") example_db).0
      ≡ err (message "incorrect pin provided"))
    × (claims 1
          (check_pin named_payment example_holder 200 (codes "0000") example_db).1
          (authorizes_payment 1 200 true ∷ [])
        ≡ 0)
unfolding fail_payment open_db exec fail_payment_sql count_rows pin_refused
check_pin-claims_example =
    check_pin-claims named_payment example_holder 200 (codes "0000") example_db
      (authorizes_payment 1 200 true ∷ []) (omega arith) refl refl

poll-ends_example :
    (poll 3 (λ i. authorizes_payment 1 50 true ∷ []) 112000000 1 paid_db).0 ≢ undecided
poll-ends_example =
    poll-ends 3 (λ i. authorizes_payment 1 50 true ∷ []) 112000000 1 paid_db (omega arith)
      (omega arith)

abbrev random_bytes : Text
random_bytes = replicate 16 0xab

abbrev ntfy_db : Db
ntfy_db = record paid_db {
  tables = record paid_db.tables {
    settings = ("HOST_DOMAIN", codes "card.example") ∷ ("NTFY_TOPIC", codes "card") ∷ [];
  };
}

-- Another request answers with the token while the loop sleeps.
abbrev token_answered : ℕ → List Call
token_answered i = approves_by_token (codes "abababababababababababababababab") b'Y' ∷ []

example_sends : (await_approval 1 token_answered (some random_bytes) true 1 ntfy_db).0 ≡ sends
unfolding await_approval poll run step wait get_payment_approval approve_payment_by_token
    approve_payment_by_token_sql create_payment_ntfy_token create_payment_ntfy_token_sql
    random_hex_16 encode_to_string send_ntfycation approval_period get_setting held find_entry
    read_setting lookup_setting open_db exec count_rows select_row update_rows bpchar_eq strip_right
    awaits_answer atoi checked query pad
example_sends = refl

await_approval-sends_example :
    Approved 1 (await_approval 1 token_answered (some random_bytes) true 1 ntfy_db).1
await_approval-sends_example =
    await_approval-sends 1 token_answered (some random_bytes) true 1 ntfy_db example_sends
