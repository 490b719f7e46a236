-- ===== src/Lnurlw/Approval/Runs.antt =====
-- The waiting for an approval is a history, with the calls of other requests in it.
use boltcard.Prelude.{
  ℕ, zero, suc, ◌+◌, ◌≡◌, Bool, true, false, ◌∷◌, List, Option, String, refl, if◌then◌else◌, ltb,
}
use boltcard.Text.{Text}
use boltcard.Db.Schema.{Db}
use boltcard.Db.Monad.{Result, ok, err, M, ◌>>◌}
use boltcard.Db.Calls.{Call, run, wait, waits, step}
use boltcard.Db.Approvals.{get_payment_approval}
use boltcard.Db.Payments.{release_payment}
use boltcard.Db.Runs.{Runs, Runs-after, Runs-bind, Runs-pure, Runs-ignore, runs_rules}
use boltcard.Db.Runs.Calls.{call_runs, get_payment_approval-Runs, release_payment-Runs}
use boltcard.Lnurlw.Approval.{
  Outcome, approval_period, approval_poll_interval, send_ntfycation, release, on_answer, poll,
  start_polling, request_approval, await_approval,
}

approval_period-Runs : Runs approval_period
unfolding approval_period
approval_period-Runs = search (runs_rules, call_runs) depth 20

send_ntfycation-Runs : (published : Bool) → Runs (send_ntfycation published)
unfolding send_ntfycation
send_ntfycation-Runs published = search (runs_rules, call_runs) depth 40

request_approval-Runs :
    (random : Option Text) (published : Bool) (id : ℕ) → Runs (request_approval random published id)
unfolding request_approval
request_approval-Runs random published id =
    search (runs_rules, call_runs, approval_period-Runs, send_ntfycation-Runs) depth 20

-- The state that a goroutine leaves, as that of an action.
abbrev pub goes : (Db → Outcome × Db) → M (Unit {0})
goes f db = (ok tt, (f db).1)

release-Runs : (id : ℕ) (reason : String) → Runs (goes (release id reason))
unfolding release
release-Runs id reason = Runs-ignore (release_payment id reason) (release_payment-Runs id reason)

on_answer-Runs :
    (id : ℕ) (r : Result (Bool × Bool)) (rest : Db → Outcome × Db)
    → Runs (goes rest)
    → Runs (goes (on_answer id r rest))
unfolding on_answer
on_answer-Runs id (err e) rest h = h
on_answer-Runs id (ok (false, approved)) rest h = h
on_answer-Runs id (ok (true, true)) rest h = Runs-pure tt
on_answer-Runs id (ok (true, false)) rest h = release-Runs id _

-- A pause, with the calls of other requests.
slept : List Call → M (Unit {0})
slept others db = (ok tt, run (wait approval_poll_interval db) others)

slept-Runs : (others : List Call) → Runs (slept others)
unfolding slept
slept-Runs others = record {
  at = λ db. (waits approval_poll_interval ∷ others, unfold run step in refl);
}

look-Runs :
    (id : ℕ) (others : List Call) (rest : Db → Outcome × Db)
    → Runs (goes rest)
    → Runs (
        slept others >> λ db.
        goes (on_answer id (get_payment_approval id db).0 rest) (get_payment_approval id db).1)
look-Runs id others rest h = Runs-bind _ _ (slept-Runs others) λ _.
    Runs-after (get_payment_approval id) (λ r. goes (on_answer id r rest))
      (get_payment_approval-Runs id) λ r. on_answer-Runs id r rest h

in_time-Runs :
    (b : Bool) (db : Db) (looked late : Outcome × Db)
    → (cs : List Call) × (run db cs ≡ looked.1)
    → (cs : List Call) × (run db cs ≡ late.1)
    → (cs : List Call) × (run db cs ≡ (if b then looked else late).1)
in_time-Runs true db looked late h l = h
in_time-Runs false db looked late h l = l

poll-Runs :
    (fuel : ℕ) (others : ℕ → List Call) (deadline id : ℕ)
    → Runs (goes (poll fuel others deadline id))
unfolding poll slept
poll-Runs zero others deadline id = Runs-pure tt
poll-Runs (suc fuel) others deadline id = record {
  at = λ db.
      in_time-Runs (ltb db.now deadline) db _ _
        ((look-Runs id (others fuel) (poll fuel others deadline id)
            (poll-Runs fuel others deadline id)).at
          db)
        ((release-Runs id "payment was not approved in time").at db);
}

start_polling-Runs :
    (fuel : ℕ) (others : ℕ → List Call) (id : ℕ) (r : Result ℕ)
    → Runs (goes (start_polling fuel others id r))
unfolding start_polling
start_polling-Runs fuel others id (ok period) = record {
  at = λ db. (poll-Runs fuel others (db.now + period) id).at db;
}
start_polling-Runs fuel others id (err e) = release-Runs id _

pub await_approval-Runs :
    (fuel : ℕ) (others : ℕ → List Call) (random : Option Text) (published : Bool) (id : ℕ)
    → Runs (goes (await_approval fuel others random published id))
unfolding await_approval
await_approval-Runs fuel others random published id =
    Runs-after (request_approval random published id) (λ r. goes (start_polling fuel others id r))
      (request_approval-Runs random published id) (start_polling-Runs fuel others id)
