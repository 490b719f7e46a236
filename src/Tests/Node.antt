-- ===== src/Tests/Node.antt =====
-- The theorems on the node, the lightning address and new cards at concrete inputs.
use boltcard.Prelude.{
  ◌≡◌, ◌≢◌, refl, ◌∷◌, [], none, some, true, arith, ◌++◌, ◌==◌, if◌then◌else◌, Option,
}
use boltcard.Prelude.Int.{pos, pos_part}
use boltcard.Text.{Text, codes, text_eq, pad, bpchar_eq, strip_right}
use boltcard.Text.Hex.{encode_to_string, hex_digit}
use boltcard.Text.Numbers.{
  atoi, itoa, is_digit, in_int64, digits, magnitude, positive, negative, written, wrap_int64,
}
use boltcard.Externals.{Externals, returns}
use boltcard.Invoice.{decode}
use boltcard.Http.{Request, get_param, first_value}
use boltcard.Db.Schema.{Db}
use boltcard.Db.Monad.{ok, open_db, query, exec, checked}
use boltcard.Db.Rows.{count_rows, select_row, update_rows}
use boltcard.Db.Settings.{get_setting, held, find_entry, read_setting, lookup_setting}
use boltcard.Db.Cards.{
  get_card_from_card_id, get_card_id_for_name_lnurlp, get_card_count_for_name_lnurlp, latest_card,
  takes_lnurlp, get_new_card, is_new_card, use_one_time_code_sql, update_cards,
}
use boltcard.Db.Payments.{
  update_payment_status, update_payment_status_sql, get_card_id_for_card_payment_id,
}
use boltcard.Db.Receipts.{insert_receipt, insert_receipt_sql}
use boltcard.Db.Calls.{run, step, wait, waits}
use boltcard.Lnd.{Node, Stream, ends, sends, seconds, get_grpc_conn, new_creds}
use boltcard.Lnd.Pay.{
  nostr_pay, connect, or_fails, decoded_or_fails, receive, notices_of_payment, payment_of,
  pay_invoice,
}
use boltcard.Lnd.Invoices.{add_invoice}
use boltcard.Lnd.Reports.{last_update, calls_at_end, ReportsUpdate, pay_invoice-Reported}
use boltcard.Lnd.Unsent.{pay_invoice-unsent}
use boltcard.Lnurlp.{PayRequest, pay_request, deposit, metadata_json, callback, response}
use boltcard.Text.Url.{path_escape}
use boltcard.Lnurlp.Receipt.{Deposited, callback-Deposited}
use boltcard.Lnurlp.Address.{SaysAddress, response-SaysAddress}
use boltcard.Program.{NewCardResponse, new_card_request}
use boltcard.Program.Once.{new_card_request_once}
use boltcard.Tests.{card_key, example_card, example_payment, example_db, example_db_with}

abbrev pub ln_db : Db
ln_db = record example_db {
  tables = record example_db.tables {
    settings =
        ("LN_PORT", codes "10009")
        ∷ ("LN_INVOICE_EXPIRY_SEC", codes "3600")
        ∷ ("FEE_LIMIT_SAT", codes "10")
        ∷ ("FEE_LIMIT_PERCENT", codes "0.5")
        ∷ ("FUNCTION_LNURLP", codes "ENABLE")
        ∷ example_db.tables.settings;
  };
}

abbrev pub example_externals : Externals
example_externals = record {
  decrypt_block = λ key block. block;
  cmac_sum = λ key message. none;
  decodepay = λ pr. returns (record { m_satoshi = pos 50000; expiry = pos 30; payee = [] });
}

-- A node that reports a payment as failed after it was in flight.
abbrev pub node_with : Option Stream → Node
node_with answer = record {
  read_file = λ file. some (codes "mac");
  is_macaroon = λ bytes. true;
  is_certificate = λ file host. true;
  dial = λ file c. ([], true);
  add_invoice = λ c i. ([], some (codes "lnbc10", codes "hash"));
  subscribe_single_invoice = λ c t hash. ([], none);
  send_payment = λ c t q. ([], answer);
  invoice_state_name = λ n. "OPEN";
  payment_status_name = λ n. if pos_part n == 3 then "FAILED" else "IN_FLIGHT";
  failure_reason_name = λ n. "FAILURE_REASON_TIMEOUT";
  sha256 = λ s. s;
  Float = Text;
  parse_float = λ s. some s;
  fee_limit_product = λ p n. pos 0;
}

abbrev pub failing : Stream
failing = sends [] (pos 1) (pos 0) (sends [] (pos 3) (pos 1) (ends (waits 5 ∷ [])))

paid :
    (pay_invoice (node_with (some failing)) example_externals 1 (codes "lnbc") ln_db).0
    ≡ ok (nostr_pay 1 (codes "blue card") ∷ [])
unfolding pay_invoice get_setting held find_entry read_setting lookup_setting open_db query exec
    atoi digits magnitude positive negative is_digit in_int64 connect get_grpc_conn new_creds run
    or_fails payment_of decoded_or_fails decode seconds wrap_int64 receive step wait
    update_payment_status update_payment_status_sql notices_of_payment
    get_card_id_for_card_payment_id get_card_from_card_id select_row count_rows encode_to_string
    update_rows text_eq itoa written
paid = refl

pay_invoice-Reported_example :
    ReportsUpdate
      (node_with (some failing))
      1
      (pos 3, pos 1)
      (pay_invoice (node_with (some failing)) example_externals 1 (codes "lnbc") ln_db).1.tables
pay_invoice-Reported_example =
    pay_invoice-Reported (node_with (some failing)) example_externals 1 (codes "lnbc") failing
      (pos 3, pos 1) _ ln_db (λ c t q. refl) (unfold last_update in refl)
      (unfold calls_at_end run step wait in λ db reported. reported) paid

pay_invoice-unsent_example :
    (pay_invoice (node_with none) example_externals 1 (codes "lnbc") ln_db).1.tables ≡ ln_db.tables
pay_invoice-unsent_example =
    pay_invoice-unsent (node_with none) example_externals 1 (codes "lnbc")
      (record { m_satoshi = pos 50000; expiry = pos 30; payee = [] }) ln_db
      (record {
        macaroon = λ file. codes "mac";
        reads = λ file. refl;
        unmarshals = λ file. refl;
        certified = λ file host. refl;
        dials = λ file c. refl;
      })
      (λ c t q. refl) (unfold decode in refl)

abbrev pub deposit_request : Request
deposit_request = record {
  host = codes "card.example";
  remote_addr = codes "192.0.2.1";
  params = ("amount", codes "10000") ∷ [];
  headers = [];
}

deposited :
    (callback (node_with none) (codes "blue card") deposit_request ln_db).0
    ≡ ok (some (record { pr = codes "lnbc10"; r_hash = codes "hash" }))
unfolding callback deposit get_param first_value get_setting held find_entry read_setting
    lookup_setting open_db query exec atoi digits magnitude positive negative is_digit in_int64
    connect get_grpc_conn new_creds run add_invoice insert_receipt insert_receipt_sql checked
    select_row count_rows encode_to_string text_eq get_card_id_for_name_lnurlp latest_card
    takes_lnurlp strip_right bpchar_eq hex_digit
deposited = refl

callback-Deposited_example :
    Deposited
      (node_with none)
      (codes "blue card")
      deposit_request
      (record { pr = codes "lnbc10"; r_hash = codes "hash" })
      (callback (node_with none) (codes "blue card") deposit_request ln_db).1.tables
callback-Deposited_example =
    callback-Deposited (node_with none) (codes "blue card") deposit_request _ ln_db deposited

-- A name with a quote, at a short host.
abbrev quoted_db : Db
quoted_db = record ln_db {
  tables = record ln_db.tables {
    cards = record example_card { card_name = codes "a\"" } ∷ [];
    settings = ("HOST_DOMAIN", codes "h") ∷ ln_db.tables.settings;
  };
}

abbrev offered : PayRequest
offered = record {
  callback = codes "https://h/lnurlp/" ++ path_escape (codes "a\"");
  max_sendable = 1000000000;
  min_sendable = 1000;
  metadata = metadata_json (codes "a\"") (codes "h");
}

abbrev quoted_request : Request
quoted_request = record deposit_request { host = codes "h" }

response-SaysAddress_example : SaysAddress (codes "a\"") (codes "h") offered
unfolding response pay_request get_setting held find_entry read_setting lookup_setting open_db query
    text_eq get_card_count_for_name_lnurlp takes_lnurlp count_rows
response-SaysAddress_example =
    response-SaysAddress (codes "a\"") quoted_request offered quoted_db
      (omega arith, (omega arith, tt)) (omega arith, tt) refl

abbrev new_db : Db
new_db =
    example_db_with
      (record example_card {
        one_time_code = pad 32 (codes "c0de");
        one_time_code_expiry = 200000000;
        one_time_code_used = b'N';
      })
      example_payment

abbrev new_request : Request
new_request = record deposit_request { params = ("a", codes "c0de") ∷ [] }

abbrev keys : NewCardResponse
keys = record {
  card_name = codes "blue card";
  lnurlw_base = codes "lnurlw://card.example/ln";
  k0 = card_key;
  k1 = [];
  k2 = card_key;
  k3 = card_key;
  k4 = card_key;
  uid_privacy = b'N';
}

given : (new_card_request new_request new_db).0 ≡ ok keys
unfolding new_card_request get_param first_value get_setting held find_entry read_setting
    lookup_setting open_db query exec text_eq get_new_card is_new_card use_one_time_code_sql
    update_cards select_row update_rows bpchar_eq strip_right pad
given = refl

new_card_request_once_example :
    (new_card_request new_request (wait 5 (new_card_request new_request new_db).1)).0 ≢ ok keys
new_card_request_once_example =
    new_card_request_once new_request new_request 5 keys keys new_db refl given
