-- ===== src/Db/Limits/Day.antt =====
-- What a card may pay in a day, in millisatoshis.
use mathlib.Core.Path.{subst}
use boltcard.Prelude.{
  ℕ, suc, ◌+◌, ◌*◌, ◌/◌, ◌≤◌, ◌≡◌, refl, sym, List, [], ◌∷◌, some, Bool, true, false, ◌&&◌, ◌==◌,
  String, arith, All, if◌then◌else◌, ==_iff,
}
use boltcard.Prelude.Int.{ℤ, pos, negsuc, pos_part, ◌≤ℤ◌, ◌+ℤ◌}
use boltcard.Db.Schema.{PaymentRow, Tables, Db}
use boltcard.Db.Monad.{ok}
use boltcard.Db.Rows.{update_rows, count_rows}
use boltcard.Db.Totals.{amount, sum_payments, counts_today, day_total_msats, day_total_sats}
use boltcard.Db.Authorize.{Locked, lock_rows, claim_sql, authorize_payment}
use boltcard.Db.Limits.{WithinDay, ClaimedFrom, authorize_payment-Permitted}

-- The rows of the payment hold the amount.
abbrev pub Amounts : ℕ → ℕ → List PaymentRow → Type 0
Amounts id m = All (λ r. r.card_payment_id ≡ id → amount r ≡ m)

abbrev to_claim : ℕ → PaymentRow → Bool
to_claim id r = r.card_payment_id == id && r.paid_flag == b'N'

abbrev claimed_row : ℕ → PaymentRow → PaymentRow
claimed_row now r = record r { paid_flag = b'Y'; payment_time = some now }

sum-claimed :
    (q : PaymentRow → Bool) (id m now : ℕ) (rs : List PaymentRow)
    → Amounts id m rs
    → sum_payments q (update_rows (to_claim id) (claimed_row now) rs)
      ≤ sum_payments q rs + count_rows (to_claim id) rs * m
unfolding sum_payments update_rows count_rows
sum-claimed q id m now [] h = omega arith
sum-claimed q id m now (r ∷ rs) h = by_test (to_claim id r) refl (sum-claimed q id m now rs h.1)
  where
    by_test :
        (b : Bool)
        → to_claim id r ≡ b
        → sum_payments q (update_rows (to_claim id) (claimed_row now) rs)
          ≤ sum_payments q rs + count_rows (to_claim id) rs * m
        → sum_payments q
            ((if b then claimed_row now r else r) ∷ update_rows (to_claim id) (claimed_row now) rs)
          ≤ sum_payments q (r ∷ rs)
            + (if b then suc (count_rows (to_claim id) rs) else count_rows (to_claim id) rs) * m
    by_test true e less =
        let same : amount r ≡ m = h.0 (ground (arith, ==_iff r.card_payment_id id)) in
        grind (arith, less, same)
    by_test false e less = omega (arith, less)

claimed_tables :
    (now id : ℕ) (t t' : Tables)
    → ClaimedFrom now id t t'
    → (t'.payments ≡ update_rows (to_claim id) (claimed_row now) t.payments)
      × (count_rows (to_claim id) t.payments ≡ 1)
unfolding claim_sql
claimed_tables now id t t' c = (ground arith, ground arith)

total_is :
    (now card : ℕ) (t : Tables) (total : ℤ)
    → day_total_sats now card t ≡ ok total
    → total ≡ pos (day_total_msats now card t / 1000)
unfolding day_total_sats
total_is now card t total e = ground arith

-- Below two satoshis are lost to rounding.
rounded : (before m q : ℕ) → before / 1000 + m / 1000 ≤ q → before + m ≤ q * 1000 + 1998
rounded before m q h = omega (arith, h)

day_total-claimed :
    (now id m card : ℕ) (t t' : Tables)
    → Amounts id m t.payments
    → ClaimedFrom now id t t'
    → day_total_msats now card t' ≤ day_total_msats now card t + m
unfolding day_total_msats
day_total-claimed now id m card t t' h c =
    let (rows, one) = claimed_tables now id t t' c in
    let q = counts_today now card in
    rw rows (
      omega (
        arith,
        subst
            (λ k.
              sum_payments q (update_rows (to_claim id) (claimed_row now) t.payments)
              ≤ sum_payments q t.payments + k * m)
            one (sum-claimed q id m now t.payments h),
      ))

within_sats :
    (n s : ℕ) (total limit : ℤ) → total ≡ pos n → (total +ℤ pos s) ≤ℤ limit → n + s ≤ pos_part limit
within_sats n s (pos k) limit e h = ground arith
within_sats n s (negsuc k) limit e h = absurd (cc)

same_rows : (a b : Locked) → ok a ≡ ok b → a ≡ b
same_rows a b e = cc

-- Whatever faults the calls meet, where a payment whose rows hold its amount is authorized with its
-- totals, what its card has claimed in the last day is afterwards at most its daily limit and 1998
-- millisatoshis, which are lost to rounding.
pub authorize_payment-day_limit :
    (id m : ℕ) (reason : String) (l : Locked) (db : Db)
    → Amounts id m db.tables.payments
    → lock_rows id db.tables ≡ ok l
    → (authorize_payment id (m / 1000) true db).0 ≡ ok (true, reason)
    → day_total_msats db.now l.card_id (authorize_payment id (m / 1000) true db).1.tables
      ≤ pos_part l.day_limit_sats * 1000 + 1998
authorize_payment-day_limit id m reason l db h e a =
    let (p, c) = authorize_payment-Permitted id (m / 1000) true reason db a in
    let same : p.rows ≡ l = same_rows p.rows l (rw (sym p.are_rows) e) in
    let d : WithinDay db.now (m / 1000) l db.tables =
      subst (λ x. WithinDay db.now (m / 1000) x db.tables) same (p.within_day refl) in
    omega (
      arith,
      day_total-claimed db.now id m l.card_id db.tables _ h c,
      rounded (day_total_msats db.now l.card_id db.tables) m (pos_part l.day_limit_sats) (
          within_sats _ (m / 1000) d.total l.day_limit_sats
            (total_is db.now l.card_id db.tables d.total d.is_total) d.within),
    )
