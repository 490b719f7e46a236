-- ===== src/Lnurlw/Callback/Checked.antt =====
-- What the checks of a callback, before the claim, have found.
use mathlib.Core.Path.{subst}
use boltcard.Prelude.{
  ℕ, ◌≡◌, refl, sym, Bool, true, false, not, ◌&&◌, some, ◌==◌, arith, ==_iff, [],
}
use boltcard.Prelude.Int.{pos_part}
use boltcard.Text.{Text, text_eq}
use boltcard.Externals.{Externals, Bolt11}
use boltcard.Invoice.{decode}
use boltcard.Http.{Request, get_param}
use boltcard.Db.Schema.{Tables, Card, Payment, failed, message}
use boltcard.Db.Monad.{ok}
use boltcard.Db.Cards.{get_card_from_card_id}
use boltcard.Db.Payments.{
  get_payment_k1, check_lnurlw_timeout, update_payment_invoice, update_payment_invoice_sql,
}
use boltcard.Db.Hoare.{
  Ensures, Reads, Ensures-pure, Ensures-raise, Ensures-if, Ensures-bind, Ensures-read, Ensures-exec,
  Reads-open_db,
}
use boltcard.Db.Hoare.Calls.{
  Sees, Reads-get_setting, Reads-ensure, Reads-or_raise, Reads-get_payment_k1,
  Reads-check_lnurlw_timeout, Reads-get_card_from_card_id,
}
use boltcard.Lnurlw.Callback.{sats_of, pin_refused, check_pin, check_testnode, checked_callback}

-- The withdraw request that the callback names, and the invoice, passed the checks before the
-- claim. `t` is what the tables are at first, and `recorded` with the invoice on the row.
pub record Checked (x : Externals) (req : Request) (now : ℕ) (t : Tables) (p : Payment)
    (bolt11 : Bolt11) (recorded : Tables) : Type 0 where
  pub named : Sees now t (get_payment_k1 (get_param "k1" req)) p
  pub unused : p.paid_flag ≡ b'N'
  pub in_time : Sees now t (check_lnurlw_timeout p.card_payment_id) false
  pub decoded : decode x (get_param "pr" req) ≡ some bolt11
  pub invoice_kept :
      update_payment_invoice_sql p.card_payment_id
        (get_param "pr" req)
        (pos_part bolt11.m_satoshi)
        now
        t
      ≡ ok (recorded, 1)
  pub card : Card
  pub of_card : Sees now recorded (get_card_from_card_id p.card_id) card
  pub pin_ok : pin_refused card (sats_of bolt11) (get_param "pin" req) ≡ false

update_payment_invoice-Ensures :
    (now : ℕ) (t : Tables) (id : ℕ) (pr : Text) (amount : ℕ)
    → Ensures now t
        (update_payment_invoice id pr amount)
        (λ u t'. update_payment_invoice_sql id pr amount now t ≡ ok (t', 1))
unfolding update_payment_invoice
update_payment_invoice-Ensures now t id pr amount = Ensures-read _ _ Reads-open_db λ _ _.
    Ensures-bind _ _ (Ensures-exec _) λ n t' e.
      Ensures-if (n == 1) _ _ (λ one. Ensures-pure tt (rw (sym ((==_iff n 1).0 one)) e))
        λ _. Ensures-raise _

module _ (now : ℕ) (t : Tables) where
  Reads-check_pin :
      (p : Payment) (c : Card) (sats : ℕ) (pin : Text)
      → Reads now t (check_pin p c sats pin) (λ _. pin_refused c sats pin ≡ false)
  unfolding check_pin
  Reads-check_pin p c sats pin =
      Ensures-if (pin_refused c sats pin) _ _ (λ _. record { at = λ db n s a e. absurd (cc) })
        λ e. Ensures-pure tt (refl, e)

  Reads-check_testnode :
      (b : Bolt11) (testnode : Text) → Reads now t (check_testnode b testnode) (λ _. Unit {0})
  unfolding check_testnode
  Reads-check_testnode b testnode =
      Ensures-if (not (text_eq testnode []) && not (text_eq b.payee testnode)) _ _
        (λ _. Ensures-raise _) λ _. Ensures-pure tt (refl, tt)

pub checked_callback-Checked :
    (x : Externals) (req : Request) (now : ℕ) (t : Tables)
    → Ensures now t
        (checked_callback x req)
        (λ (p, b, pr) t'. (pr ≡ get_param "pr" req) × Checked x req now t p b t')
unfolding checked_callback
checked_callback-Checked x req now t = Ensures-read _ _ (Reads-get_setting _) λ domain _.
    Ensures-read _ _ (Reads-ensure (text_eq req.host domain) (message "wrong host domain"))
      λ _ host.
        Ensures-read _ _
          (Reads-ensure (not (text_eq (get_param "k1" req) [])) (message "k1 not found"))
          λ _ k1. Ensures-read _ _ (Reads-get_payment_k1 _) λ p named.
            Ensures-read _ _ (Reads-ensure (p.paid_flag == b'N') (message "payment already made"))
              λ _ unused. Ensures-read _ _ (Reads-check_lnurlw_timeout _) λ late in_time.
                Ensures-read _ _ (Reads-ensure (not late) (message "lnurlw request has timed out"))
                  λ _ not_late.
                    Ensures-read _ _
                      (Reads-ensure (not (text_eq (get_param "pr" req) []))
                        (message "pr field not found"))
                      λ _ pr.
                        Ensures-read _ _ (Reads-or_raise (decode x (get_param "pr" req)) failed)
                          λ b decoded.
                            Ensures-bind _ _ (update_payment_invoice-Ensures now t _ _ _)
                              λ _ t' kept.
                                Ensures-read _ _ (Reads-get_card_from_card_id _) λ c of_card.
                                  Ensures-read _ _ (Reads-check_pin now t' p c _ _) λ _ pin_ok.
                                    Ensures-read _ _ (Reads-get_setting _) λ testnode _.
                                      Ensures-read _ _ (Reads-check_testnode now t' b testnode)
                                        λ _ _. Ensures-pure _ (
                                          refl,
                                          record {
                                            named = named;
                                            unused = (==_iff _ _).0 unused;
                                            in_time =
                                                subst
                                                  (Sees now t
                                                    (check_lnurlw_timeout p.card_payment_id))
                                                  (not_true late not_late) in_time;
                                            decoded = decoded;
                                            invoice_kept = kept;
                                            card = c;
                                            of_card = of_card;
                                            pin_ok = pin_ok;
                                          },
                                        )
  where
    not_true : (b : Bool) → not b ≡ true → b ≡ false
    not_true b e = ground arith
