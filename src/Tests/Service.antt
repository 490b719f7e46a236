-- ===== src/Tests/Service.antt =====
-- The theorems on cards, rate limits and the API key at concrete inputs.
use boltcard.Prelude.{◌+◌, ◌*◌, ◌≤◌, ◌≡◌, ◌⊎◌, ◌↔◌, refl, [], ◌∷◌, true, false, arith}
use boltcard.Prelude.Int.{pos, negsuc}
use boltcard.Text.{codes, fits, excess, all_blank, characters}
use boltcard.Http.{Request}
use boltcard.Db.Schema.{Db, violation}
use boltcard.Db.Settings.{lookup_setting, get_setting, held, find_entry}
use boltcard.Db.Settings.Recent.{Held, get_setting-Recent}
use boltcard.Db.Monad.{ok, err, open_db, exec, checked}
use boltcard.Db.Rows.{count_rows}
use boltcard.Db.CardWrites.{
  NewCard, Pin, live_named, insert_card_with_pin, insert_card_sql, wipe_sql, fits_columns,
}
use boltcard.Db.CardWrites.Live.{insert_card_with_pin-live, insert_card_with_pin-wipes}
use boltcard.Auth.{
  min_key_length, internal_api_key, request_token, require_internal_api_key,
  require_internal_api_key_iff,
}
use boltcard.Ratelimit.{token, new}
use boltcard.Ratelimit.Bound.{Requests, duration, admitted, admitted-le}
use boltcard.Ratelimit.Concurrency.{
  comes, ends, max_in_flight, enter, Gate, idle, gate_at, in_flight-le,
}
use boltcard.Tests.{card_key, example_db}

abbrev blue_card : NewCard
blue_card = record {
  one_time_code = card_key;
  k0_auth_key = card_key;
  k2_cmac_key = card_key;
  k3 = card_key;
  k4 = card_key;
  tx_limit_sats = pos 1000;
  day_limit_sats = pos 5000;
  lnurlw_enable = true;
  card_name = codes "blue card";
  uid_privacy = false;
  allow_neg_bal = false;
}

abbrev pin_1234 : Pin
pin_1234 = record { pin_enable = true; pin_number = codes "1234"; pin_limit_sats = pos 100 }

insert_card_with_pin-live_example :
    count_rows
      (live_named (codes "blue card"))
      (insert_card_with_pin blue_card pin_1234 example_db).1.tables.cards
    ≡ 1
unfolding insert_card_with_pin open_db exec checked insert_card_sql wipe_sql fits_columns fits
    excess all_blank characters
insert_card_with_pin-live_example =
    insert_card_with_pin-live blue_card pin_1234 example_db (omega arith) refl

-- A limit of 2^31 satoshis.
abbrev rich_card : NewCard
rich_card = record blue_card { tx_limit_sats = pos 2147483648 }

insert_card_with_pin-wipes_example :
    ((insert_card_with_pin rich_card pin_1234 example_db).0 ≡ err violation)
    × (count_rows
          (live_named (codes "blue card"))
          (insert_card_with_pin rich_card pin_1234 example_db).1.tables.cards
        ≡ 0)
unfolding fits_columns fits excess all_blank
insert_card_with_pin-wipes_example =
    insert_card_with_pin-wipes rich_card pin_1234 example_db refl refl

abbrev keyed_request : Request
keyed_request = record {
  host = codes "card.example";
  remote_addr = codes "192.0.2.1";
  params = [];
  headers = ("Authorization", codes "Bearer 0123456789abcdef") ∷ [];
}

require_internal_api_key_iff_example :
    ((require_internal_api_key (codes " 0123456789abcdef ") keyed_request example_db).0 ≡ ok true)
    ↔ ((min_key_length ≤ 16) × (request_token keyed_request ≡ codes "0123456789abcdef"))
unfolding internal_api_key
require_internal_api_key_iff_example =
    require_internal_api_key_iff (codes " 0123456789abcdef ") keyed_request example_db
      (codes "0123456789abcdef") refl

abbrev two_callers : Requests
two_callers = (0, codes "a") ∷ (1000000, codes "b") ∷ (500000, codes "a") ∷ []

admitted-le_example :
    admitted (codes "a") 7 (new (pos 30) (negsuc 4)) two_callers * token
    ≤ 1 * token + duration two_callers * 30
admitted-le_example = admitted-le (pos 30) (negsuc 4) (codes "a") 7 two_callers (omega arith)

abbrev busy : Gate
busy = gate_at (max_in_flight (pos 1)) idle (comes ∷ comes ∷ ends ∷ comes ∷ [])

in_flight-le_example :
    (busy.running ≤ max_in_flight (pos 1))
    × ((enter (max_in_flight (pos 1)) busy.slots).0 ≡ false → busy.running ≡ max_in_flight (pos 1))
in_flight-le_example = in_flight-le (pos 1) (comes ∷ comes ∷ ends ∷ comes ∷ [])

-- The value is held, while the table has another.
abbrev held_db : Db
held_db = record example_db {
  cache = record {
    entries = record { name = "HOST_DOMAIN"; value = codes "old"; fetched_at = 105000000 } ∷ [];
    ttl = 10000000;
  };
}

get_setting-Recent_example :
    ((codes "old" ≡ []) ⊎ (lookup_setting "HOST_DOMAIN" held_db.tables.settings ≡ ok (codes "old")))
    ⊎ Held "HOST_DOMAIN" held_db.now held_db.cache (codes "old")
unfolding get_setting held find_entry
get_setting-Recent_example = get_setting-Recent "HOST_DOMAIN" held_db (codes "old") refl
