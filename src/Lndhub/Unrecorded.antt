-- ===== src/Lndhub/Unrecorded.antt =====
-- lndhub/lndhub.go: a callback that pays through LNDHUB, and what the answer of the server leaves.
use boltcard.Prelude.{ℕ, ◌≡◌, ◌≤◌, Option, some, Bool, true, ◌&&◌, ◌==◌}
use boltcard.Text.{Text}
use boltcard.Externals.{Externals}
use boltcard.Db.Schema.{Tables, Db, PaymentRow}
use boltcard.Db.Rows.{select_row}
use boltcard.Db.Payments.{with_id}
use boltcard.Db.Totals.{counts_today, day_total_msats}
use boltcard.Db.Keeps.{Keeps}
use boltcard.Lnurlw.Callback.Started.{Started}
use boltcard.Lndhub

-- The payment is marked as paid at `now` with its amount, which is part of the daily total of its
-- card.
pub record StaysClaimed (now id msats : ℕ) (t : Tables) : Type 0 where
  pub row : PaymentRow
  pub found : select_row (with_id id) t.payments ≡ some row
  pub paid : row.paid_flag ≡ b'Y'
  pub has_amount : row.amount_msats ≡ some msats
  pub today : counts_today now row.card_id row ≡ true
  pub in_total : msats ≤ day_total_msats now row.card_id t

abbrev with_invoice : Text → ℕ → PaymentRow → PaymentRow
with_invoice pr msats r = record r { ln_invoice = pr; amount_msats = some msats }

abbrev with_claim : ℕ → PaymentRow → PaymentRow
with_claim now r = record r { paid_flag = b'Y'; payment_time = some now }

abbrev is_unused : ℕ → PaymentRow → Bool
is_unused id r = r.card_payment_id == id && r.paid_flag == b'N'
