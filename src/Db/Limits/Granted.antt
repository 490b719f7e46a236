-- ===== src/Db/Limits/Granted.antt =====
-- `Authorize_payment` grants what its rules permit.
use boltcard.Prelude.{
  ℕ, ◌≤◌, ◌≡◌, refl, ◌⊎◌, inl, inr, List, [], ◌∷◌, Option, none, some, Bool, true, false, ◌&&◌,
  String, ◌==◌, arith, Bool-cases,
}
use boltcard.Prelude.Int.{ℤ, pos, ◌≤ℤ◌, ◌+ℤ◌, ◌-ℤ◌, ltb_ℤ}
use boltcard.Db.Schema.{Tables, Db, SettingCache, PaymentRow}
use boltcard.Db.Monad.{
  Result, ok, query, open_db, exec, transaction, begin, finish, next_fault, used, on_query,
}
use boltcard.Db.Rows.{select_row, count_rows}
use boltcard.Db.Payments.{with_id, join_card}
use boltcard.Db.Authorize.{
  Locked, locked_row, lock_rows, claim_sql, claimed_one, claim, check_balance,
  check_day_and_balance, check_rules, authorize_payment,
}
use boltcard.Db.Limits.{Permitted, WithinDay, WithinBalance}

ltb_ℤ-≤ℤ : (a b : ℤ) → a ≤ℤ b → ltb_ℤ b a ≡ false
ltb_ℤ-≤ℤ a b h = ground arith

ltb_ℤ_difference : (a b : ℤ) → a ≤ℤ b → ltb_ℤ (b -ℤ a) (pos 0) ≡ false
ltb_ℤ_difference a b h = ground arith

count_rows-both-le :
    (p q : PaymentRow → Bool) (rs : List PaymentRow)
    → count_rows (λ x. p x && q x) rs ≤ count_rows p rs
unfolding count_rows
count_rows-both-le p q [] = omega arith
count_rows-both-le p q (x ∷ rs) = ground (arith, count_rows-both-le p q rs)

-- One row is selected, and it satisfies the second test too.
count_rows-both :
    (p q : PaymentRow → Bool) (rs : List PaymentRow) (r : PaymentRow)
    → count_rows p rs ≡ 1
    → select_row p rs ≡ some r
    → q r ≡ true
    → count_rows (λ x. p x && q x) rs ≡ 1
unfolding count_rows select_row
count_rows-both p q [] r c s h = absurd (cc)
count_rows-both p q (x ∷ rs) r c s h =
    ground (arith, count_rows-both p q rs r, count_rows-both-le p q rs)

abbrev Granted : Result (Bool × String) × Db → Type 0
Granted (answer, db) = (answer ≡ ok (true, "")) × (db.faults ≡ [])

module _ (now id sats : ℕ) (t : Tables) (cache : SettingCache) where
  fresh : Db
  fresh = record { tables = t; cache = cache; now = now; faults = [] }

  claim-answer :
      count_rows (λ r. r.card_payment_id == id && r.paid_flag == b'N') t.payments ≡ 1
      → Granted (claim id fresh)
  unfolding claim claimed_one exec claim_sql next_fault used fresh
  claim-answer c = rw c (refl, refl)

  check_balance-answer :
      (l : Locked)
      → count_rows (λ r. r.card_payment_id == id && r.paid_flag == b'N') t.payments ≡ 1
      → (l.allow_negative_balance ≡ b'Y') ⊎ WithinBalance sats l t
      → Granted (check_balance id l sats fresh)
  unfolding check_balance query on_query next_fault used fresh
  check_balance-answer l c (inl y) = rw y (claim-answer c)
  check_balance-answer l c (inr w) = elim (Bool-cases (l.allow_negative_balance == b'Y')) [
    | inl y ↦ rw y (claim-answer c)
    | inr n ↦ rw (n, w.is_balance, ltb_ℤ_difference (pos sats) w.balance w.within) (claim-answer c)
  ]

  check_rules-answer :
      (totals : Bool) (l : Locked)
      → count_rows (λ r. r.card_payment_id == id && r.paid_flag == b'N') t.payments ≡ 1
      → l.paid_flag ≡ b'N'
      → pos sats ≤ℤ l.tx_limit_sats
      → (totals ≡ true → WithinDay now sats l t)
      → (totals ≡ true → (l.allow_negative_balance ≡ b'Y') ⊎ WithinBalance sats l t)
      → Granted (check_rules id sats totals l fresh)
  unfolding check_rules check_day_and_balance query on_query next_fault used fresh
  check_rules-answer true l c u tx d b =
      rw
        (
          u,
          ltb_ℤ-≤ℤ (pos sats) l.tx_limit_sats tx,
          (d refl).is_total,
          ltb_ℤ-≤ℤ ((d refl).total +ℤ pos sats) l.day_limit_sats (d refl).within,
        )
        (check_balance-answer l c (b refl))
  check_rules-answer false l c u tx d b =
      rw (u, ltb_ℤ-≤ℤ (pos sats) l.tx_limit_sats tx) (claim-answer c)

-- One row has the id of the payment, and it is not used: the claim finds one row.
one_to_claim :
    (id : ℕ) (t : Tables) (l : Locked)
    → count_rows (with_id id) t.payments ≡ 1
    → lock_rows id t ≡ ok l
    → l.paid_flag ≡ b'N'
    → count_rows (λ r. r.card_payment_id == id && r.paid_flag == b'N') t.payments ≡ 1
unfolding lock_rows locked_row
one_to_claim id t l c e u = from (select_row (with_id id) t.payments) refl e
  where
    from :
        (o : Option PaymentRow)
        → select_row (with_id id) t.payments ≡ o
        → join_card locked_row t o ≡ ok l
        → count_rows (λ r. r.card_payment_id == id && r.paid_flag == b'N') t.payments ≡ 1
    from none s e' = absurd (cc)
    from (some r) s e' =
        count_rows-both (with_id id) (λ r. r.paid_flag == b'N') t.payments r c s (ground arith)

-- With no fault, `Authorize_payment` answers `true` for a payment that the rules permit and whose
-- id one row has.
pub authorize_payment-grants :
    (id sats : ℕ) (totals : Bool) (db : Db)
    → Permitted db.now id sats totals db.tables
    → count_rows (with_id id) db.tables.payments ≡ 1
    → (authorize_payment id sats totals (record db { faults = [] })).0 ≡ ok (true, "")
unfolding authorize_payment open_db transaction begin query on_query next_fault used fresh
authorize_payment-grants id sats totals db p c = rw p.are_rows (
    ended (check_rules id sats totals p.rows (fresh db.now id sats db.tables db.cache)) (
      check_rules-answer db.now id sats db.tables db.cache totals p.rows
        (one_to_claim id db.tables p.rows c p.are_rows p.unused) p.unused p.within_tx p.within_day
        p.within_balance))
  where
    ended :
        (r : Result (Bool × String) × Db) → Granted r → (finish db.tables r.0 r.1).0 ≡ ok (true, "")
    ended (answer, after) (a, f) = rw (a, f) refl
