-- ===== src/Lnurlw/Approval.antt =====
-- `await_approval` of lnurlw/lnurlw_callback.go: a claimed payment is sent once the card holder
-- approves it, and released where they reject it or do not answer in time.
pub mod Ends
pub mod Runs
pub mod Sends
use boltcard.Prelude.{
  ℕ, zero, suc, ◌+◌, ◌*◌, Bool, true, false, not, List, [], Option, none, some, String, ltb, leb,
  if◌then◌else◌,
}
use boltcard.Prelude.Int.{ℤ, pos, negsuc}
use boltcard.Text.{Text, text_eq, trim_space}
use boltcard.Text.Numbers.{atoi}
use boltcard.Db.Schema.{Db, message, second}
use boltcard.Db.Monad.{Result, ok, err, M, pure, ◌>>=◌, ◌>>◌}
use boltcard.Db.Settings.{get_setting}
use boltcard.Db.Payments.{release_payment}
use boltcard.Db.Approvals.{create_payment_ntfy_token, get_payment_approval}
use boltcard.Db.Calls.{Call, run, wait}
use boltcard.Lnurlw.Tap.{ensure, ignore}

abbrev pub default_approval_sec : ℕ
default_approval_sec = 60

abbrev pub approval_poll_interval : ℕ
approval_poll_interval = 2 * second

seconds_or_default : Option ℤ → ℕ
seconds_or_default none = default_approval_sec
seconds_or_default (some (pos n)) = if leb 1 n then n else default_approval_sec
seconds_or_default (some (negsuc n)) = default_approval_sec

-- The setting NTFY_APPROVAL_SEC, where it is a positive number.
unfoldable pub approval_period : M ℕ
unfolding seconds_or_default trim_space
approval_period = do
  value ← get_setting "NTFY_APPROVAL_SEC"
  pure (seconds_or_default (atoi (trim_space value)) * second)

-- `SendNtfycation` of ntfy/ntfy.go up to the publishing, whose success `published` tells.
unfoldable pub send_ntfycation : Bool → M (Unit {0})
unfolding text_eq
send_ntfycation published = do
  host_domain ← get_setting "HOST_DOMAIN"
  ensure (not (text_eq host_domain [])) (message "HOST_DOMAIN is not set")
  topic ← get_setting "NTFY_TOPIC"
  ensure (not (text_eq topic [])) (message "NTFY_TOPIC is not set")
  ntfy_url ← get_setting "NTFY_URL"
  ntfy_user ← get_setting "NTFY_USER"
  if text_eq ntfy_user [] then pure [] else get_setting "NTFY_PASSWORD"
  ensure published (message "could not send the approval notification")

-- How the goroutine ends. `undecided` is the end of the fuel, and no end of the code.
pub data Outcome : Type 0 where
  sends : Outcome
  releases : String → Outcome
  undecided : Outcome

-- `release`: the error of `Release_payment` is only logged.
unfoldable pub release : ℕ → String → Db → Outcome × Db
release card_payment_id reason db =
    (releases reason, (ignore (release_payment card_payment_id reason) db).1)

-- What one look at the answer leads to; `rest` is the loop.
on_answer : ℕ → Result (Bool × Bool) → (Db → Outcome × Db) → Db → Outcome × Db
unfolding release
on_answer card_payment_id (err e) rest db = rest db
on_answer card_payment_id (ok (false, approved)) rest db = rest db
on_answer card_payment_id (ok (true, true)) rest db = (sends, db)
on_answer card_payment_id (ok (true, false)) rest db =
    release card_payment_id "payment was rejected" db

-- The polling loop. While it sleeps for the `i`th time, other requests make the calls `others i`.
unfoldable pub poll : ℕ → (ℕ → List Call) → ℕ → ℕ → Db → Outcome × Db
unfolding on_answer release
poll zero others deadline id db = (undecided, db)
poll (suc fuel) others deadline id db =
    let slept = run (wait approval_poll_interval db) (others fuel) in
    let rest = poll fuel others deadline id in
    let looked =
      on_answer id (get_payment_approval id slept).0 rest (get_payment_approval id slept).1 in
    if ltb db.now deadline then looked else release id "payment was not approved in time" db

-- The deadline is set when the notification is out.
start_polling : ℕ → (ℕ → List Call) → ℕ → Result ℕ → Db → Outcome × Db
unfolding poll release
start_polling fuel others id (ok period) db = poll fuel others (db.now + period) id db
start_polling fuel others id (err e) db = release id "approval could not be requested" db

-- The token, the notification and the waiting period.
unfoldable pub request_approval : Option Text → Bool → ℕ → M ℕ
request_approval random published id = do
  create_payment_ntfy_token random id
  send_ntfycation published
  approval_period

-- `random` is what the token is drawn from.
unfoldable pub await_approval : ℕ → (ℕ → List Call) → Option Text → Bool → ℕ → Db → Outcome × Db
unfolding start_polling request_approval
await_approval fuel others random published id db =
    start_polling fuel others id (request_approval random published id db).0
      (request_approval random published id db).1
