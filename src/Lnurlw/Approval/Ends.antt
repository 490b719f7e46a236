-- ===== src/Lnurlw/Approval/Ends.antt =====
-- The waiting for an approval ends.
use boltcard.Prelude.{
  ℕ, zero, suc, ◌+◌, ◌*◌, ◌≤◌, ◌<◌, ◌≡◌, refl, ◌≢◌, Bool, true, false, List, if◌then◌else◌, ltb,
  arith,
}
use boltcard.Db.Schema.{Db}
use boltcard.Db.Monad.{Result, ok, err}
use boltcard.Db.Approvals.{get_payment_approval}
use boltcard.Db.Calls.{Call, run, wait}
use boltcard.Db.Timeless.Calls.{run-now, get_payment_approval-now}
use boltcard.Lnurlw.Approval.{Outcome, undecided, approval_poll_interval, on_answer, poll, release}

on_answer-ends :
    (id : ℕ) (looked : Result (Bool × Bool)) (rest : Db → Outcome × Db) (db : Db)
    → (rest db).0 ≢ undecided
    → (on_answer id looked rest db).0 ≢ undecided
unfolding on_answer release
on_answer-ends id (err e) rest db h = h
on_answer-ends id (ok (false, approved)) rest db h = h
on_answer-ends id (ok (true, true)) rest db h = λ e. absurd (cc)
on_answer-ends id (ok (true, false)) rest db h = λ e. absurd (cc)

-- A round is left for the time that is left.
round-ends :
    (b : Bool) (looked late : Outcome × Db)
    → (b ≡ true → looked.0 ≢ undecided)
    → late.0 ≢ undecided
    → (if b then looked else late).0 ≢ undecided
round-ends true looked late h l = h refl
round-ends false looked late h l = l

early_lt : (a b : ℕ) → ltb a b ≡ true → a < b
early_lt a b e = ground arith

-- Whatever other requests do in the meantime and whatever faults the calls meet, the polling loop
-- ends: one look for every two seconds that are left, and one more, are enough fuel.
pub poll-ends :
    (fuel : ℕ) (others : ℕ → List Call) (deadline id : ℕ) (db : Db)
    → 0 < fuel
    → deadline + approval_poll_interval ≤ db.now + fuel * approval_poll_interval
    → (poll fuel others deadline id db).0 ≢ undecided
unfolding poll release wait
poll-ends zero others deadline id db some le = λ e. absurd (omega arith)
poll-ends (suc fuel) others deadline id db some le =
    let slept = run (wait approval_poll_interval db) (others fuel) in
    round-ends (ltb db.now deadline) _ _
      (λ early. on_answer-ends id _ (poll fuel others deadline id) _ (
        poll-ends fuel others deadline id (get_payment_approval id slept).1
          (omega (arith, early_lt db.now deadline early))
          (omega (
            arith,
            run-now (wait approval_poll_interval db) (others fuel),
            get_payment_approval-now id slept,
          ))))
      λ e. absurd (cc)
