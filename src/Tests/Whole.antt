-- ===== src/Tests/Whole.antt =====
-- The theorems on the whole service at a concrete sequence of events: two callbacks race for one
-- withdraw request, the database loses an answer, and a deposit comes in between.
use boltcard.Prelude.{ℕ, ◌≡◌, ◌≤◌, ◌∷◌, List, [], none, some, true, false, arith}
use boltcard.Text.{codes, trim_space, strip_left, strip_right, text_eq}
use boltcard.Text.Numbers.{atoi, is_digit, in_int64, digits, magnitude, positive, negative}
use boltcard.Db.Monad.{ok, open_db, query}
use boltcard.Db.Settings.{
  get_setting, get_setting_now, set_setting_cache_seconds, clear, held, find_entry, read_setting,
  lookup_setting, settle, hold, fetch,
}
use boltcard.Auth.{internal_api_key}
use boltcard.Startup.{
  Running, running_of, start, prepare, setting_cache_sec, setting_int, internal_api_listen_address,
  internal_port, key_configured,
}
use boltcard.Startup.Protected.{Protected, start-Protected}
use boltcard.Prelude.{String, refl, ◌≡◌}
use boltcard.Prelude.Int.{pos}
use boltcard.Text.Split.{split}
use boltcard.Http.{Request, get_header, first_value}
use boltcard.Ratelimit.Callers.{client_key_behind_proxies, client_key_ignores_claims}
use boltcard.Db.Schema.{Db, fine, reply_lost}
use boltcard.Db.Calls.{Call, run, claims}
use boltcard.Service.Events.{Event, passes, calls_back, deposits, pays, World, all_handled, jobs}
use boltcard.Service.Refines.{service_refines, jobs-le-one}
use boltcard.Tests.{card_key}
use boltcard.Tests.Node.{node_with, failing, example_externals, ln_db, deposit_request}

abbrev example_world : World
example_world = record {
  externals = example_externals;
  auth = λ url login password. none;
  node = node_with (some failing);
  hub = λ url bearer q. ([], none);
  is_print = λ r. false;
}

abbrev callback_request : Request
callback_request = record deposit_request {
  params = ("k1", card_key) ∷ ("pr", codes "lnbc1") ∷ ("pin", codes "1234") ∷ [];
}

abbrev events : List Event
events =
    calls_back callback_request
    ∷ deposits (codes "blue card") deposit_request
    ∷ passes 5
    ∷ calls_back callback_request
    ∷ pays 1 (codes "lnbc1")
    ∷ []

abbrev faulty_db : Db
faulty_db = record ln_db { faults = fine ∷ fine ∷ reply_lost ∷ [] }

service_refines_example :
    (cs : List Call) × ((run faulty_db cs ≡ all_handled example_world faulty_db events)
      × ((id : ℕ) → jobs example_world id faulty_db events ≤ claims id faulty_db cs))
service_refines_example = service_refines example_world events faulty_db

jobs-le-one_example : jobs example_world 1 faulty_db events ≤ 1
jobs-le-one_example = jobs-le-one example_world events 1 faulty_db (omega arith)

abbrev forwarded : String → Request
forwarded entries = record deposit_request { headers = ("X-Forwarded-For", codes entries) ∷ [] }

client_key_ignores_claims_example :
    client_key_behind_proxies (λ s. true) (forwarded "10.0.0.1, 192.0.2.7") (pos 1)
    ≡ client_key_behind_proxies (λ s. true) (forwarded "198.51.100.9, 192.0.2.7") (pos 1)
client_key_ignores_claims_example =
    client_key_ignores_claims (λ s. true) (forwarded "10.0.0.1, 192.0.2.7")
      (forwarded "198.51.100.9, 192.0.2.7") 1 (codes "10.0.0.1") (codes "198.51.100.9")
      (codes " 192.0.2.7") (unfold split in refl) (unfold get_header first_value in refl)
      (unfold get_header first_value in refl) refl

abbrev start_db : Db
start_db = record ln_db {
  tables = record ln_db.tables {
    settings =
        ("LOG_LEVEL", codes "PRODUCTION")
        ∷ ("FUNCTION_INTERNAL_API", codes "ENABLE")
        ∷ ("EXTERNAL_RATE_BURST", codes "x")
        ∷ ln_db.tables.settings;
  };
}

abbrev started : Running
started = running_of (pos 0) (pos 120) (pos 40) (pos 32) [] (some (codes "127.0.0.1:9001"))

starts_so : (start (codes " 0123456789abcdef ") start_db).0 ≡ ok started
unfolding start prepare setting_cache_sec get_setting_now set_setting_cache_seconds clear
    get_setting held find_entry read_setting lookup_setting settle hold fetch open_db query
    setting_int atoi digits magnitude positive negative is_digit in_int64
    internal_api_listen_address internal_port key_configured internal_api_key trim_space strip_left
    strip_right text_eq
starts_so = refl

start-Protected_example : Protected (codes " 0123456789abcdef ") (codes "127.0.0.1:9001") start_db
start-Protected_example =
    start-Protected (codes " 0123456789abcdef ") started (codes "127.0.0.1:9001") start_db starts_so
      refl
