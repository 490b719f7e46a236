-- ===== src/Db/Claims.antt =====
-- A withdraw request is used once: a claimed payment stays claimed, and is never authorized again.
pub mod Forward
pub mod Grants
pub mod Refusal
use boltcard.Prelude.{
  ℕ, suc, ◌+◌, ◌≤◌, ◌<◌, ◌≡◌, refl, sym, ◌≢◌, ◌⊎◌, inl, inr, List, [], ◌∷◌, Option, none, some,
  Bool, true, false, ◌&&◌, String, ◌==◌, if◌then◌else◌, arith, All, ==_iff, Bool-cases,
}
use mathlib.Core.Path.{subst}
use boltcard.Text.{Text}
use boltcard.Db.Schema.{Tables, PaymentRow, Db, Fault, fine, refused, reply_lost}
use boltcard.Db.Monad.{
  Result, ok, err, M, pure, continue, ◌>>=◌, query, open_db, exec, transaction, next_fault,
  on_query, used, begin, finish, on_exec, on_commit,
}
use boltcard.Db.Rows.{select_row, update_rows, All-update_rows, All-select_row, select_row-holds}
use boltcard.Db.Payments.{
  with_id, join_card, update_payments, insert_payment_sql, update_payment_invoice_sql,
  fail_payment_sql, release_payment_sql, update_payment_status_sql,
}
use boltcard.Db.Approvals.{
  update_payment_ntfy_sql, create_payment_ntfy_token_sql, approve_payment_by_token_sql,
}
use boltcard.Db.Authorize.{
  Locked, locked_row, lock_rows, claim_sql, claimed_one, claim, check_balance,
  check_day_and_balance, check_rules, authorize_payment,
}
use boltcard.Db.Keeps.{Preserved, Respects, Respects-checked}
use boltcard.Db.Keeps.Statements.{Lawful}
use boltcard.Db.Keeps.Calls.{step-keeps}
use boltcard.Db.Calls.{Call, authorizes_payment, step, authorized, claims_at, claims}
use Forward.{RowSpent, Spent, forward, forward_laws}
use Grants.{authorize_payment-Grants}
use Refusal.{authorize_payment-refuses}

claims_at-Spent :
    (id : ℕ) (db : Db) (c : Call) → Spent id db.tables.payments → claims_at id db c ≡ 0
unfolding claims_at
claims_at-Spent id db (authorizes_payment other sats totals) h = elim (Bool-cases (other == id)) [
  | inl e ↦
      let same : other ≡ id = (==_iff other id).0 e in
      rw (
        e,
        authorize_payment-refuses other sats totals db
            (subst (λ i. Spent i db.tables.payments) (sym same) h),
      )
  | inr e ↦ rw e
]
claims_at-Spent id db _ h = refl

abbrev Claimed : ℕ → Db → Call → Type 0
Claimed id db c =
    (claims_at id db c ≡ 0) ⊎ ((claims_at id db c ≡ 1) × Spent id (step db c).tables.payments)

claims_at-cases : (id : ℕ) (db : Db) (c : Call) → Claimed id db c
unfolding claims_at step
claims_at-cases id db (authorizes_payment other sats totals) =
    by_answer (other == id) (authorized (authorize_payment other sats totals db).0) refl refl
  where
    by_answer :
        (b a : Bool)
        → (other == id) ≡ b
        → authorized (authorize_payment other sats totals db).0 ≡ a
        → Claimed id db (authorizes_payment other sats totals)
    by_answer true true e g = inr (
      rw (e, g),
      subst (λ i. Spent i (authorize_payment other sats totals db).1.tables.payments)
          ((==_iff other id).0 e) ((authorize_payment-Grants other sats totals).at db g),
    )
    by_answer true false e g = inl (rw (e, g))
    by_answer false a e g = inl (rw e)
claims_at-cases id db _ = inl refl

step-next_payment_id :
    (db : Db) (c : Call) → db.tables.next_payment_id ≤ (step db c).tables.next_payment_id
step-next_payment_id db c = (step-keeps forward_laws db c λ _ _. tt).ids

-- After a claim there is no other.
pub claims-Spent :
    (id : ℕ) (db : Db) (cs : List Call)
    → id < db.tables.next_payment_id
    → Spent id db.tables.payments
    → claims id db cs ≡ 0
unfolding claims
claims-Spent id db [] lt h = refl
claims-Spent id db (c ∷ cs) lt h = omega (
  arith,
  claims_at-Spent id db c h,
  claims-Spent id (step db c) cs (omega (arith, step-next_payment_id db c))
      ((step-keeps forward_laws db c λ _ _. tt).spent id lt h),
)

-- In any history, of calls by any number of requests that meet any faults, a payment that exists
-- is authorized at most once.
pub claims-le-one :
    (id : ℕ) (db : Db) (cs : List Call) → id < db.tables.next_payment_id → claims id db cs ≤ 1
unfolding claims
claims-le-one id db [] lt = omega arith
claims-le-one id db (c ∷ cs) lt =
    let later : id < (step db c).tables.next_payment_id =
      omega (arith, step-next_payment_id db c) in
    elim (claims_at-cases id db c) [
      | inl e ↦ omega (arith, e, claims-le-one id (step db c) cs later)
      | inr (e, s) ↦ omega (arith, e, claims-Spent id (step db c) cs later s)
    ]
