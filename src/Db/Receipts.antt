-- ===== src/Db/Receipts.antt =====
-- The card_receipts operations of db/db.go.
use boltcard.Prelude.{ℕ, suc, ◌∷◌, Bool, not, ◌&&◌, String, ltb, leb, length}
use boltcard.Text.{Text, bpchar_eq, pad}
use boltcard.Db.Schema.{ReceiptRow}
use boltcard.Db.Monad.{ok, M, ◌>>=◌, ◌>>◌, query, open_db, exec, expect_one, Statement, checked}
use boltcard.Db.Rows.{select_row, count_rows, update_rows, scan}
use boltcard.Db.Payments.{card_with_id, is_present}

abbrev pub with_r_hash : Text → ReceiptRow → Bool
with_r_hash r_hash_hex r = bpchar_eq r.r_hash_hex r_hash_hex

-- The card must exist, `r_hash_hex` must fit CHAR(64) and be UNIQUE, `ln_invoice` must fit
-- VARCHAR(1024), and the amount must be positive.
unfoldable pub insert_receipt_sql : ℕ → Text → Text → ℕ → Statement
insert_receipt_sql card_id ln_invoice r_hash_hex amount_msat =
    checked
      (λ t.
        is_present (select_row (card_with_id card_id) t.cards)
        && leb (length r_hash_hex) 64
        && not (is_present (select_row (with_r_hash r_hash_hex) t.receipts))
        && leb (length ln_invoice) 1024
        && ltb 0 amount_msat)
      λ now t. ok (
        record t {
          receipts =
              record {
                card_receipt_id = t.next_receipt_id;
                card_id = card_id;
                ln_invoice = ln_invoice;
                r_hash_hex = pad 64 r_hash_hex;
                amount_msats = amount_msat;
                receipt_status = "";
                receipt_status_time = now;
              }
              ∷ t.receipts;
          next_receipt_id = suc t.next_receipt_id;
        },
        1,
      )

unfoldable pub insert_receipt : ℕ → Text → Text → ℕ → M (Unit {0})
insert_receipt card_id ln_invoice r_hash_hex amount_msat = do
  open_db
  count ← exec (insert_receipt_sql card_id ln_invoice r_hash_hex amount_msat)
  expect_one "not one card_receipts record inserted" count

unfoldable pub update_receipt_state_sql : Text → String → Statement
update_receipt_state_sql r_hash_hex invoice_state now t = ok (
  record t {
    receipts =
        update_rows (with_r_hash r_hash_hex)
          (λ r. record r { receipt_status = invoice_state; receipt_status_time = now }) t.receipts;
  },
  count_rows (with_r_hash r_hash_hex) t.receipts,
)

unfoldable pub update_receipt_state : Text → String → M (Unit {0})
update_receipt_state r_hash_hex invoice_state = do
  open_db
  count ← exec (update_receipt_state_sql r_hash_hex invoice_state)
  expect_one "not one card_receipts record updated" count

unfoldable pub get_card_id_for_r_hash : Text → M ℕ
get_card_id_for_r_hash r_hash = do
  open_db
  query λ now t. scan (λ r. r.card_id) (select_row (with_r_hash r_hash) t.receipts)
