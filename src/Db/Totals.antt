-- ===== src/Db/Totals.antt =====
-- The sums of db/db.go: the daily total of a card, and its balance of receipts less payments.
use boltcard.Prelude.{
  ℕ, ◌+◌, ◌-◌, ◌^◌, List, [], ◌∷◌, Option, none, some, Bool, false, not, ◌&&◌, ◌||◌, str_eq, ◌==◌,
  ltb, leb, if◌then◌else◌,
}
use boltcard.Prelude.Int.{ℤ, pos, pos_part, neg_part, sub_ℕ, quot_ℤ}
use boltcard.Db.Schema.{Tables, PaymentRow, ReceiptRow, violation, one_day}
use boltcard.Db.Monad.{Result, ok, err, M, ◌>>=◌, ◌>>◌, pure, query, open_db}

abbrev pub amount : PaymentRow → ℕ
amount r = elim r.amount_msats [ none ↦ 0 | some m ↦ m ]

-- COALESCE(SUM(amount_msats), 0) over the rows of a WHERE clause. SUM skips NULL.
unfoldable pub sum_payments : (PaymentRow → Bool) → List PaymentRow → ℕ
sum_payments p [] = 0
sum_payments p (r ∷ rs) = (if p r then amount r else 0) + sum_payments p rs

unfoldable pub sum_receipts : (ReceiptRow → Bool) → List ReceiptRow → ℕ
sum_receipts p [] = 0
sum_receipts p (r ∷ rs) = (if p r then r.amount_msats else 0) + sum_receipts p rs

paid_after : Option ℕ → ℕ → Bool
paid_after none now = false
paid_after (some paid) now = ltb now (paid + one_day)

-- card_id = $1 AND paid_flag = 'Y' AND payment_time > NOW() - INTERVAL '1 DAY'
unfoldable pub counts_today : ℕ → ℕ → PaymentRow → Bool
unfolding paid_after
counts_today now card_id r =
    r.card_id == card_id && r.paid_flag == b'Y' && paid_after r.payment_time now

unfoldable pub day_total_msats : ℕ → ℕ → Tables → ℕ
unfolding sum_payments counts_today
day_total_msats now card_id t = sum_payments (counts_today now card_id) t.payments

-- SUM of a BIGINT column is NUMERIC. The cast ::BIGINT refuses what does not fit.
abbrev pub to_bigint : ℤ → Result ℤ
to_bigint n =
    if leb (pos_part n) (2 ^ 63 - 1) && leb (neg_part n) (2 ^ 63) then ok n else err violation

abbrev pub to_sats : Result ℤ → Result ℤ
to_sats (ok n) = ok (quot_ℤ n 1000)
to_sats (err e) = err e

unfoldable pub day_total_sats : ℕ → ℕ → Tables → Result ℤ
day_total_sats now card_id t = to_sats (to_bigint (pos (day_total_msats now card_id t)))

-- A payment counts once it is claimed or the node has reported on it, unless it has failed.
unfoldable pub counts_in_balance : ℕ → PaymentRow → Bool
counts_in_balance card_id r =
    r.card_id == card_id
    && not (str_eq r.payment_status "FAILED")
    && ltb 0 (amount r)
    && (r.paid_flag == b'Y' || not (str_eq r.payment_status ""))

unfoldable pub settled : ℕ → ReceiptRow → Bool
settled card_id r = r.card_id == card_id && str_eq r.receipt_status "SETTLED"

unfoldable pub spent_msats : ℕ → Tables → ℕ
unfolding sum_payments counts_in_balance
spent_msats card_id t = sum_payments (counts_in_balance card_id) t.payments

unfoldable pub received_msats : ℕ → Tables → ℕ
unfolding sum_receipts settled
received_msats card_id t = sum_receipts (settled card_id) t.receipts

-- The query `card_total_sats_sql`. Its UNION drops no row: `tx_id` and `tx_type` tell all apart.
unfoldable pub card_total_sats : ℕ → Tables → Result ℤ
card_total_sats card_id t =
    to_sats (to_bigint (sub_ℕ (received_msats card_id t) (spent_msats card_id t)))

unfoldable pub get_card_total_sats : ℕ → M ℤ
get_card_total_sats card_id = do open_db; query λ now t. card_total_sats card_id t

-- `Get_card_totals` reads the sum into an int and divides in Go.
unfoldable pub get_card_totals : ℕ → M ℤ
get_card_totals card_id = do
  open_db
  day_total ← query λ now t. to_bigint (pos (day_total_msats now card_id t))
  pure (quot_ℤ day_total 1000)
