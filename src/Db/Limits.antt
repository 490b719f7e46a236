-- ===== src/Db/Limits.antt =====
-- What `Authorize_payment` has checked when its answer is `true`.
pub mod Day
pub mod Granted
use boltcard.Prelude.{
  ℕ, ◌≡◌, refl, sym, ◌⊎◌, inl, inr, Option, none, some, Bool, true, false, not, String, ◌==◌,
  if◌then◌else◌, arith, ==_iff,
}
use boltcard.Prelude.Int.{ℤ, pos, negsuc, ◌≤ℤ◌, ◌+ℤ◌, ◌-ℤ◌, ltb_ℤ}
use boltcard.Db.Schema.{Tables, Db}
use boltcard.Db.Monad.{Result, ok, err, M, pure, ◌>>=◌, ◌>>◌, query, open_db, exec, transaction}
use boltcard.Db.Rows.{select_row, update_rows, count_rows}
use boltcard.Db.Payments.{with_id, card_with_id, join_card, update_payments}
use boltcard.Db.Totals.{day_total_sats, card_total_sats}
use boltcard.Db.Authorize.{
  Locked, locked_row, lock_rows, claim_sql, claimed_one, claim, check_balance,
  check_day_and_balance, check_rules, authorize_payment,
}
use boltcard.Db.Hoare.{
  Ensures, Reads, Ensures-pure, Ensures-if, Ensures-bind, Ensures-read, Reads-query, Reads-open_db,
  Ensures-exec, Ensures-transaction,
}

pub record WithinDay (now sats : ℕ) (l : Locked) (t : Tables) : Type 0 where
  pub total : ℤ
  pub is_total : day_total_sats now l.card_id t ≡ ok total
  pub within : (total +ℤ pos sats) ≤ℤ l.day_limit_sats

pub record WithinBalance (sats : ℕ) (l : Locked) (t : Tables) : Type 0 where
  pub balance : ℤ
  pub is_balance : card_total_sats l.card_id t ≡ ok balance
  pub within : pos sats ≤ℤ balance

-- The rules for a payment of `sats`. The daily limit and the balance count `totals` is set.
pub record Permitted (now id sats : ℕ) (totals : Bool) (t : Tables) : Type 0 where
  pub rows : Locked
  pub are_rows : lock_rows id t ≡ ok rows
  pub unused : rows.paid_flag ≡ b'N'
  pub within_tx : pos sats ≤ℤ rows.tx_limit_sats
  pub within_day : totals ≡ true → WithinDay now sats rows t
  pub within_balance :
      totals ≡ true → (rows.allow_negative_balance ≡ b'Y') ⊎ WithinBalance sats rows t

-- The one row of the payment is claimed, and nothing else is changed.
abbrev pub ClaimedFrom : ℕ → ℕ → Tables → Tables → Type 0
ClaimedFrom now id t t' = claim_sql id now t ≡ ok (t', 1)

abbrev Answers : (now id : ℕ) → Tables → Type 0 → Bool × String → Tables → Type 0
Answers now id t P answer t' = answer.0 ≡ true → P × ClaimedFrom now id t t'

≤ℤ-not_ltb_ℤ : (a b : ℤ) → ltb_ℤ b a ≡ false → a ≤ℤ b
≤ℤ-not_ltb_ℤ a b e = ground arith

≤ℤ-not_negative : (a b : ℤ) → ltb_ℤ (b -ℤ a) (pos 0) ≡ false → a ≤ℤ b
≤ℤ-not_negative a b e = ground arith

module _ (now id : ℕ) (t : Tables) {P : Type 0} where
  refuse-Answers : (text : String) → Ensures now t (pure (false, text)) (Answers now id t P)
  refuse-Answers text = Ensures-pure _ λ e. absurd (cc)

  claim-Answers : P → Ensures now t (claim id) (Answers now id t P)
  unfolding claim claimed_one
  claim-Answers p = Ensures-bind _ _ (Ensures-exec (claim_sql id)) λ n t' e.
      Ensures-if (n == 1) _ _ (λ one. Ensures-pure _ λ _. (p, rw (sym ((==_iff n 1).0 one)) e))
        (λ _. refuse-claimed t')
    where
      refuse-claimed :
          (t' : Tables) → Ensures now t' (pure (false, "payment already made")) (Answers now id t P)
      refuse-claimed t' = Ensures-pure _ λ e. absurd (cc)

  check_balance-Answers :
      (l : Locked) (sats : ℕ)
      → ((l.allow_negative_balance ≡ b'Y') ⊎ WithinBalance sats l t → P)
      → Ensures now t (check_balance id l sats) (Answers now id t P)
  unfolding check_balance
  check_balance-Answers l sats done =
      Ensures-if (l.allow_negative_balance == b'Y') _ _
        (λ y. claim-Answers (done (inl ((==_iff _ _).0 y))))
        λ _. Ensures-read _ _ (Reads-query _) λ total e.
          Ensures-if (ltb_ℤ (total -ℤ pos sats) (pos 0)) _ _ (λ _. refuse-Answers _)
            λ g. claim-Answers (
              done (
                inr (record {
                  balance = total;
                  is_balance = e;
                  within = ≤ℤ-not_negative (pos sats) total g;
                })))

  check_day-Answers :
      (l : Locked) (sats : ℕ)
      → (WithinDay now sats l t → (l.allow_negative_balance ≡ b'Y') ⊎ WithinBalance sats l t → P)
      → Ensures now t (check_day_and_balance id l sats) (Answers now id t P)
  unfolding check_day_and_balance
  check_day-Answers l sats done = Ensures-read _ _ (Reads-query _) λ total e.
      Ensures-if (ltb_ℤ l.day_limit_sats (total +ℤ pos sats)) _ _ (λ _. refuse-Answers _)
        λ g. check_balance-Answers l sats (
          done (record {
            total = total;
            is_total = e;
            within = ≤ℤ-not_ltb_ℤ (total +ℤ pos sats) l.day_limit_sats g;
          }))

check_rules-Answers :
    (now id sats : ℕ) (totals : Bool) (t : Tables) (l : Locked)
    → lock_rows id t ≡ ok l
    → Ensures now t
        (check_rules id sats totals l)
        (Answers now id t (Permitted now id sats totals t))
unfolding check_rules
check_rules-Answers now id sats totals t l e =
    Ensures-if (not (l.paid_flag == b'N')) _ _ (λ _. refuse-Answers now id t _)
      λ unused.
        Ensures-if (ltb_ℤ l.tx_limit_sats (pos sats)) _ _ (λ _. refuse-Answers now id t _)
          λ tx.
            Ensures-if totals _ _
              (λ on. check_day-Answers now id t l sats λ day balance. record {
                rows = l;
                are_rows = e;
                unused = ground (arith, ==_iff l.paid_flag b'N');
                within_tx = ≤ℤ-not_ltb_ℤ (pos sats) l.tx_limit_sats tx;
                within_day = λ _. day;
                within_balance = λ _. balance;
              })
              λ off. claim-Answers now id t (record {
                rows = l;
                are_rows = e;
                unused = ground (arith, ==_iff l.paid_flag b'N');
                within_tx = ≤ℤ-not_ltb_ℤ (pos sats) l.tx_limit_sats tx;
                within_day = λ on. absurd (cc);
                within_balance = λ on. absurd (cc);
              })

pub authorize_payment-Ensures :
    (now id sats : ℕ) (totals : Bool) (t : Tables)
    → Ensures now t
        (authorize_payment id sats totals)
        (Answers now id t (Permitted now id sats totals t))
unfolding authorize_payment
authorize_payment-Ensures now id sats totals t = Ensures-read _ _ Reads-open_db λ _ _.
    Ensures-transaction _
      (Ensures-read _ _ (Reads-query _) λ l e. check_rules-Answers now id sats totals t l e)
      λ text e. absurd (cc)

-- Whatever faults the calls meet, where `Authorize_payment` answers `true` the payment was unused
-- and within the card's transaction limit, where the totals are checked within its daily limit and
-- its balance too, and exactly its row is claimed.
pub authorize_payment-Permitted :
    (id sats : ℕ) (totals : Bool) (reason : String) (db : Db)
    → (authorize_payment id sats totals db).0 ≡ ok (true, reason)
    → Permitted db.now id sats totals db.tables
      × ClaimedFrom db.now id db.tables (authorize_payment id sats totals db).1.tables
authorize_payment-Permitted id sats totals reason db e =
    ((authorize_payment-Ensures db.now id sats totals db.tables).at db refl refl _ e).1 refl
