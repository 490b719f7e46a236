-- ===== src/Lnurlw/Callback/Pin.antt =====
-- A wrong PIN uses the withdraw request up.
use boltcard.Prelude.{ℕ, ◌<◌, ◌≡◌, refl, true, List}
use boltcard.Text.{Text}
use boltcard.Db.Schema.{Db, Card, Payment, message}
use boltcard.Db.Monad.{ok, err}
use boltcard.Db.Payments.{fail_payment}
use boltcard.Db.Payments.Ended.{fail_payment-Spent, fail_payment-next_payment_id}
use boltcard.Db.Calls.{Call, claims}
use boltcard.Db.Claims.{claims-Spent}
use boltcard.Lnurlw.Callback.{check_pin, pin_refused}

-- A callback with a wrong PIN is refused, and where its write goes through the payment is never
-- authorized in any history that follows: a tap gives one try at the PIN.
pub check_pin-claims :
    (p : Payment) (c : Card) (sats : ℕ) (pin : Text) (db : Db) (cs : List Call)
    → p.card_payment_id < db.tables.next_payment_id
    → pin_refused c sats pin ≡ true
    → (fail_payment p.card_payment_id "incorrect pin provided" db).0 ≡ ok tt
    → ((check_pin p c sats pin db).0 ≡ err (message "incorrect pin provided"))
      × (claims p.card_payment_id (check_pin p c sats pin db).1 cs ≡ 0)
unfolding check_pin
check_pin-claims p c sats pin db cs lt wrong failed = rw wrong (
  refl,
  claims-Spent p.card_payment_id _ cs
      (rw (fail_payment-next_payment_id p.card_payment_id "incorrect pin provided" db failed) lt)
      (fail_payment-Spent p.card_payment_id "incorrect pin provided" db failed),
)
