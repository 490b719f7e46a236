-- ===== src/Lib.antt =====
-- The bolt card service: NFC cards that pay Lightning invoices through LNURL-withdraw.
--
-- A tap of a card sends `GET /ln?p=..&c=..`: the service decrypts the card's UID and counter,
-- checks the CMAC and the counter, and answers with a withdraw request that a fresh `k1` names. The
-- point of sale sends `GET /cb?k1=..&pr=..&pin=..`: the service checks the request, the invoice,
-- the PIN and the card's limits, claims the request in one transaction, and starts a goroutine that
-- pays the invoice, after the card holder's approval where that is switched on.
--
-- Cards are made and changed through the internal API, and programmed with a one-time code at
-- `GET /new`. `GET /.well-known/lnurlp/name` and `GET /lnurlp/name` take deposits for a card.
--
--   Prelude, Text      numbers, tests, lists, machine integers; strings as lists of bytes, the parts
--                      of strings, strconv, encoding/hex, encoding/json (Json, as of Go 1.22),
--                      net/url (Url) and unicode/utf8 (Runes) that the code calls, CHAR(n) columns
--   Externals          what is not in the repository: AES, CMAC, the invoice decoder. They are
--                      fields of a record that the definitions take as an argument
--   Http               net/http requests: the host, the caller, query parameters, headers
--   Db                 db/db.go, db/settings.go and the tables of sql/create_db.sql
--     Schema, Monad    the tables, the faults of a connection, queries, statements, transactions
--     Rows             SELECT, UPDATE and COUNT over rows
--     Settings         the settings and the cache of them (db/settings.go)
--     Cards, CardWrites, Payments, Receipts, Approvals, Totals, Authorize
--                      one definition per function of db/db.go, under its name in lower case, with
--                      its SQL statement as a definition `.._sql` of its own
--     Calls            histories: the calls that change the state, in any order
--     Keeps            what every call preserves;  Hoare  what an action establishes
--     Runs             actions that are histories
--     Timeless         no call takes time
--     Claims           a withdraw request is claimed once
--     Cards.Counter    the counter of a card
--     Limits           what `Authorize_payment` checks (Granted, Day)
--   Crypto, Invoice    crypto/crypto.go, invoice/invoice.go
--   Lnurlw             lnurlw/lnurlw_request.go (Tap, Request), lnurlw/lnurlw_callback.go
--                      (Callback, Approval)
--   Approve            approve_request.go
--   Ratelimit          ratelimit/ratelimit.go (Callers: the keys of callers) and
--                      ratelimit/concurrency.go (Concurrency)
--   Auth               auth/auth.go
--   Internalapi        internalapi/*.go: Create (createboltcard.go, createboltcardwithpin.go), Update
--                      (updateboltcard.go, updateboltcardwithpin.go), Validate (validate.go), and the
--                      other functions in the file itself
--   Lnd                lnd/lnd.go: the node, Pay (PayInvoice), Invoices (Add_invoice,
--                      Monitor_invoice_state)
--   Lnurlp             lnurlp/metadata.go, lnurlp/lnurlp_request.go, lnurlp/lnurlp_callback.go
--   Program            new_card_request.go
--   Lndhub             lndhub/lndhub.go, and what it leaves of a callback's payment (Unrecorded)
--   Startup            main.go: the settings that the service starts with
--   Service            all handlers and goroutines together (Events)
--   Tests              a sample database, and the theorems at concrete inputs
--
-- The state is `Db`: the tables, the held settings, the clock, and a list of faults. Each round
-- trip to the server takes the next fault: it is answered, it is refused, or it takes effect and
-- the answer is lost; a list that is used up means no more faults. An action is a function
-- `Db → Result A × Db`, and a Go function that returns `(value, error)` is an action. A statement is
-- atomic, as it is for PostgreSQL, and so is the transaction of `Authorize_payment`, whose
-- `FOR UPDATE` lock the other writers of the same row wait for. The requests that run at the same
-- time are the interleavings of their calls, which the histories of Db.Calls are. Time stands still
-- within a call and passes between calls.
--
-- A goroutine that waits for the node or for an answer is an action too: while it waits, other
-- requests make calls, which come with the answer that it waits for, the end of a stream among
-- them. Service.Events puts the requests and the goroutines in a sequence, each handled as a
-- whole but for these waits; a race of two requests is an interleaving of their calls, in
-- Db.Calls.
--
-- The polling loop of `await_approval` runs on fuel, one unit per look at the answer. A bucket of the
-- rate limiter counts exact parts of a token where the code has float64.
--
-- The functions of the lightning node, of the files that lnd.go reads and of the float64 arithmetic
-- of the fee limit are fields of `Lnd.Node`. `unicode.IsPrint` beyond Latin-1 is an argument of the
-- internal API, and so are the bytes that rand.Read gives. `net.ParseIP` is one of the caller's key.
--
-- Not modelled: the queries of transactions in db.go (Get_card_txs, Get_latest_card_tx), which only
-- read for messages; the routes and listeners of main.go; the transport of HTTP, ntfy, LNDHUB and
-- LND; e-mail, nostr and logging; the bytes of error answers, where an error is its message; and the
-- commands in cli and createboltcardwithpin.
pub mod Prelude
pub mod Text
pub mod Db
pub mod Http
pub mod Externals
pub mod Crypto
pub mod Invoice
pub mod Lnurlw
pub mod Approve
pub mod Ratelimit
pub mod Auth
pub mod Internalapi
pub mod Lnd
pub mod Lnurlp
pub mod Program
pub mod Service
pub mod Startup
pub mod Lndhub
pub mod Tests
