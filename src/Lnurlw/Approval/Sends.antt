-- ===== src/Lnurlw/Approval/Sends.antt =====
-- A payment that waits for approval is sent only once its holder has approved it.
use boltcard.Prelude.{
  ℕ, zero, suc, ◌+◌, ◌≡◌, refl, ◌≢◌, Bool, true, false, List, Option, if◌then◌else◌, ltb,
}
use boltcard.Text.{Text}
use boltcard.Db.Schema.{Db}
use boltcard.Db.Monad.{Result, ok, err}
use boltcard.Db.Approvals.{get_payment_approval}
use boltcard.Db.Calls.{Call, run, wait}
use boltcard.Db.Hoare.Calls.{Sees, Reads-get_payment_approval}
use boltcard.Lnurlw.Approval.{
  Outcome, sends, approval_poll_interval, on_answer, poll, start_polling, request_approval,
  await_approval, release,
}

-- The tables say that the payment is approved.
abbrev pub Approved : ℕ → Db → Type 0
Approved id db = Sees db.now db.tables (get_payment_approval id) (true, true)

on_answer-sends :
    (id : ℕ) (looked : Result (Bool × Bool)) (rest : Db → Outcome × Db) (db : Db)
    → (looked ≡ ok (true, true) → Approved id db)
    → ((rest db).0 ≡ sends → Approved id (rest db).1)
    → (on_answer id looked rest db).0 ≡ sends
    → Approved id (on_answer id looked rest db).1
unfolding on_answer release
on_answer-sends id (err e) rest db now later s = later s
on_answer-sends id (ok (false, approved)) rest db now later s = later s
on_answer-sends id (ok (true, true)) rest db now later s = now refl
on_answer-sends id (ok (true, false)) rest db now later s = absurd (cc)

looked-Approved :
    (id : ℕ) (db : Db)
    → (get_payment_approval id db).0 ≡ ok (true, true)
    → Approved id (get_payment_approval id db).1
looked-Approved id db e =
    let (n, (s, q)) = (Reads-get_payment_approval id).at db refl refl (true, true) e in rw (n, s) q

-- The outcome `late` does not send.
in_time :
    (b : Bool) (id : ℕ) (looked late : Outcome × Db)
    → (looked.0 ≡ sends → Approved id looked.1)
    → late.0 ≢ sends
    → (if b then looked else late).0 ≡ sends
    → Approved id (if b then looked else late).1
in_time true id looked late h l s = h s
in_time false id looked late h l s = absurd (l s)

poll-sends :
    (fuel : ℕ) (others : ℕ → List Call) (deadline id : ℕ) (db : Db)
    → (poll fuel others deadline id db).0 ≡ sends
    → Approved id (poll fuel others deadline id db).1
unfolding poll release
poll-sends zero others deadline id db = λ s. absurd (cc)
poll-sends (suc fuel) others deadline id db =
    let slept = run (wait approval_poll_interval db) (others fuel) in
    in_time (ltb db.now deadline) id _ _
      (on_answer-sends id _ (poll fuel others deadline id) _ (looked-Approved id slept)
        (poll-sends fuel others deadline id _))
      λ e. absurd (cc)

-- Whatever other requests do in the meantime and whatever faults the calls meet, the waiting ends in
-- sending the payment only if the tables then say that it was answered, with yes.
pub await_approval-sends :
    (fuel : ℕ) (others : ℕ → List Call) (random : Option Text) (published : Bool) (id : ℕ) (db : Db)
    → (await_approval fuel others random published id db).0 ≡ sends
    → Approved id (await_approval fuel others random published id db).1
unfolding await_approval
await_approval-sends fuel others random published id db s =
    started (request_approval random published id db).0 (request_approval random published id db).1
      s
  where
    started :
        (r : Result ℕ) (db : Db)
        → (start_polling fuel others id r db).0 ≡ sends
        → Approved id (start_polling fuel others id r db).1
    started (ok period) db s = poll-sends fuel others (db.now + period) id db s
    started (err e) db s = absurd (cc)
