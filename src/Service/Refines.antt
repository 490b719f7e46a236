-- ===== src/Service/Refines.antt =====
-- The service is a history of the calls of db/db.go.
use boltcard.Prelude.{ℕ, ◌≤◌, ◌<◌, ◌≡◌, refl, [], ◌∷◌, List, arith}
use boltcard.Http.{Request}
use boltcard.Db.Schema.{Db}
use boltcard.Db.Calls.{Call, run, claims, waits, step}
use boltcard.Db.Claims.{claims-le-one}
use boltcard.Db.Runs.{History, History-same, History-plus}
use boltcard.Lnurlw.Approval.Runs.{await_approval-Runs}
use boltcard.Internalapi.Limits.{
  Function, creates, creates_with_pin, gets, updates, updates_with_pin, updates_payment, wipes,
  requested,
}
use boltcard.Service.Api.{
  createboltcard-Runs, createboltcardwithpin-Runs, getboltcard-Runs, wipeboltcard-Runs,
  updateboltcard-Runs, updateboltcardwithpin-Runs, updateboltcardpayment-Runs,
}
use boltcard.Service.Node
use boltcard.Service.Requests
use boltcard.Service.Pays.{callback-Traced}
use boltcard.Service.Events.{
  Event, passes, taps, calls_back, approves, sets_up, asks, deposits, administers, awaits, pays,
  pays_by_hub, monitors, World, handled, jobs_at, all_handled, jobs,
}

-- The history of an event that starts no job.
abbrev nothing : ℕ → ℕ
nothing id = 0

no_job : (db db' : Db) → (cs : List Call) × (run db cs ≡ db') → History nothing nothing db db'
no_job db db' (cs, e) = record { calls = cs; leads = e; covers = λ id. omega arith }

requested-Runs :
    (w : World) (f : Function) (r : Request) (db : Db)
    → (cs : List Call) × (run db cs ≡ requested w.is_print f r db)
unfolding requested
requested-Runs w (creates draws) r db = (createboltcard-Runs w.is_print r draws).at db
requested-Runs w (creates_with_pin draws) r db =
    (createboltcardwithpin-Runs w.is_print r draws).at db
requested-Runs w gets r db = (getboltcard-Runs w.is_print r).at db
requested-Runs w updates r db = (updateboltcard-Runs w.is_print r).at db
requested-Runs w updates_with_pin r db = (updateboltcardwithpin-Runs w.is_print r).at db
requested-Runs w updates_payment r db = (updateboltcardpayment-Runs r).at db
requested-Runs w wipes r db = (wipeboltcard-Runs w.is_print r).at db

module _ (w : World) where
  -- Each event is a history, which authorizes each payment as often as the event starts it.
  handled-History :
      (e : Event) (db : Db) → History nothing (λ id. jobs_at w id db e) db (handled w db e)
  unfolding handled jobs_at
  handled-History (passes n) db = no_job db _ (waits n ∷ [], unfold run step in refl)
  handled-History (taps random r) db = no_job db _ ((Requests.response-Runs _ random r).at db)
  handled-History (calls_back r) db = (callback-Traced w.externals w.auth r).at db
  handled-History (approves r) db = no_job db _ ((Requests.approve_request-Runs r).at db)
  handled-History (sets_up r) db = no_job db _ ((Requests.new_card_request-Runs r).at db)
  handled-History (asks name r) db = no_job db _ ((Node.response-Runs name r).at db)
  handled-History (deposits name r) db = no_job db _ ((Node.callback-Runs w.node name r).at db)
  handled-History (administers f r) db = no_job db _ (requested-Runs w f r db)
  handled-History (awaits fuel others random published id) db =
      no_job db _ ((await_approval-Runs fuel others random published id).at db)
  handled-History (pays id pr) db =
      no_job db _ ((Node.pay_invoice-Runs w.node w.externals id pr).at db)
  handled-History (pays_by_hub id pr sats login token) db =
      no_job db _ ((Node.hub-Runs w.hub id pr sats login token).at db)
  handled-History (monitors r_hash) db =
      no_job db _ ((Node.monitor_invoice_state-Runs w.node r_hash).at db)

  all_handled-History :
      (es : List Event) (db : Db) → History nothing (λ id. jobs w id db es) db (all_handled w db es)
  unfolding all_handled jobs
  all_handled-History [] db = History-same nothing db
  all_handled-History (e ∷ es) db =
      History-plus (handled-History e db) (all_handled-History es (handled w db e))

-- The service is a history of the database calls. Whatever events the service handles, in whatever
-- order, and whatever faults it meets: the state that they leave is the state that some sequence of
-- the calls of db/db.go leaves, and that sequence authorizes each payment at least as often as a
-- callback starts a job that pays it.
pub service_refines :
    (w : World) (es : List Event) (db : Db)
    → (cs : List Call) × ((run db cs ≡ all_handled w db es)
        × ((id : ℕ) → jobs w id db es ≤ claims id db cs))
service_refines w es db =
    let h = all_handled-History w es db in (h.calls, (h.leads, λ id. omega (arith, h.covers id)))

-- A withdraw request is paid once. Whatever events the service handles, in whatever order, and
-- whatever faults it meets, the callbacks start at most one job that pays a withdraw request that
-- is there at the start.
pub jobs-le-one :
    (w : World) (es : List Event) (id : ℕ) (db : Db)
    → id < db.tables.next_payment_id
    → jobs w id db es ≤ 1
jobs-le-one w es id db there =
    let (cs, (_, covers)) = service_refines w es db in
    omega (arith, covers id, claims-le-one id db cs there)
