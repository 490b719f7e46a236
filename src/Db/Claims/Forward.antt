-- ===== src/Db/Claims/Forward.antt =====
-- A claimed payment stays claimed under every statement of db/db.go.
use boltcard.Prelude.{ℕ, ◌≤◌, ◌<◌, ◌≡◌, refl, sym, ◌≢◌, List, Bool, arith, All}
use mathlib.Core.Path.{subst}
use boltcard.Text.{Text}
use boltcard.Db.Schema.{Tables, PaymentRow}
use boltcard.Db.Rows.{All-update_rows}
use boltcard.Db.Payments.{
  update_payments, insert_payment_sql, update_payment_invoice_sql, fail_payment_sql,
  release_payment_sql, update_payment_status_sql,
}
use boltcard.Db.Cards.{use_one_time_code_sql, update_card_uid_ctr_sql, counter_sql}
use boltcard.Db.CardWrites.{wipe_sql, insert_card_sql, update_card_sql, update_pin_sql}
use boltcard.Db.Receipts.{insert_receipt_sql, update_receipt_state_sql}
use boltcard.Db.Approvals.{
  update_payment_ntfy_sql, create_payment_ntfy_token_sql, approve_payment_by_token_sql,
}
use boltcard.Db.Authorize.{claim_sql}
use boltcard.Db.Keeps.{Preserved, Respects, Respects-checked}
use boltcard.Db.Keeps.Statements.{Lawful}

-- No row of the payment is unclaimed.
abbrev pub RowSpent : ℕ → PaymentRow → Type 0
RowSpent id r = r.card_payment_id ≡ id → r.paid_flag ≢ b'N'

abbrev pub Spent : ℕ → List PaymentRow → Type 0
Spent id = All (RowSpent id)

-- A payment that exists and is spent stays so.
pub record Forward (t u : Tables) : Type 0 where
  pub ids : t.next_payment_id ≤ u.next_payment_id
  pub spent : (id : ℕ) → id < t.next_payment_id → Spent id t.payments → Spent id u.payments

abbrev pub forward : Preserved
forward = record {
  Rel = Forward;
  same = λ t. record { ids = omega arith; spent = λ id lt h. h };
  trans = λ t u v p q. record {
    ids = omega arith;
    spent = λ id lt h. q.spent id (omega arith) (p.spent id lt h);
  };
}

-- An update that leaves the identity and never unclaims.
update_payments-Forward :
    (p : PaymentRow → Bool) (f : ℕ → PaymentRow → PaymentRow)
    → ((id now : ℕ) (r : PaymentRow) → RowSpent id r → RowSpent id (f now r))
    → Respects forward (update_payments p f)
unfolding update_payments
update_payments-Forward p f keep now t = record {
  ids = omega arith;
  spent =
      λ id lt h. All-update_rows (RowSpent id) p (f now) t.payments (λ r _ s. keep id now r s) h;
}

insert_payment-Forward : (id : ℕ) (k1 : Text) → Respects forward (insert_payment_sql id k1)
unfolding insert_payment_sql
insert_payment-Forward id k1 =
    Respects-checked forward _ _
      (λ now t. record { ids = omega arith; spent = λ i lt h. ((λ e. absurd (omega arith)), h) })

-- The payments are the same.
other_tables-Forward :
    (t u : Tables) → u.payments ≡ t.payments → u.next_payment_id ≡ t.next_payment_id → Forward t u
other_tables-Forward t u e n = record {
  ids = omega (arith, n);
  spent = λ id lt h. subst (Spent id) (sym e) h;
}

pub forward_laws : Lawful forward (λ _. Unit {0})
unfolding update_payment_invoice_sql claim_sql fail_payment_sql release_payment_sql
    update_payment_status_sql update_payment_ntfy_sql create_payment_ntfy_token_sql
    approve_payment_by_token_sql use_one_time_code_sql update_card_uid_ctr_sql counter_sql wipe_sql
    insert_card_sql update_card_sql update_pin_sql insert_receipt_sql update_receipt_state_sql
forward_laws = record {
  use_code_law = λ code. λ now t. other_tables-Forward t _ refl refl;
  uid_ctr_law =
      λ id uid ctr may. Respects-checked forward _ _ λ now t. other_tables-Forward t _ refl refl;
  counter_law = λ id ctr. λ now t. other_tables-Forward t _ refl refl;
  wipe_law = λ name. λ now t. other_tables-Forward t _ refl refl;
  insert_card_law = λ n p. Respects-checked forward _ _ λ now t. other_tables-Forward t _ refl refl;
  update_card_law = λ name enable tx day.
      Respects-checked forward _ _ λ now t. other_tables-Forward t _ refl refl;
  update_pin_law = λ name enable tx day fits set_pin same counter.
      Respects-checked forward _ _ λ now t. other_tables-Forward t _ refl refl;
  insert_receipt_law =
      λ id pr hash amount. Respects-checked forward _ _ λ now t. other_tables-Forward t _ refl refl;
  receipt_state_law = λ hash s. λ now t. other_tables-Forward t _ refl refl;
  insert_payment_law = insert_payment-Forward;
  invoice_law =
      λ id pr amount. Respects-checked forward _ _ (update_payments-Forward _ _ λ i n r h. h);
  claim_law = λ id. update_payments-Forward _ _ λ i n r h. ground arith;
  fail_law = λ id reason. update_payments-Forward _ _ λ i n r h. ground arith;
  release_law = λ id reason. update_payments-Forward _ _ λ i n r h. h;
  status_law = λ id s reason. update_payments-Forward _ _ λ i n r h. h;
  ntfy_law = λ id flag. update_payments-Forward _ _ λ i n r h. h;
  token_law = λ id token. Respects-checked forward _ _ (update_payments-Forward _ _ λ i n r h. h);
  approve_law = λ token flag. update_payments-Forward _ _ λ i n r h. h;
}
