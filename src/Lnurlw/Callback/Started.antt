-- ===== src/Lnurlw/Callback/Started.antt =====
-- What holds where a callback starts a payment.
use boltcard.Prelude.{
  ℕ, ◌≡◌, refl, Bool, true, false, ◌&&◌, Option, String, ◌==◌, if◌then◌else◌, List, [], ◌∷◌, length,
}
use boltcard.Text.{Text, codes, text_eq}
use boltcard.Externals.{Externals, Bolt11}
use boltcard.Http.{Request, get_param}
use boltcard.Db.Schema.{Tables, Db, Payment, failed}
use boltcard.Db.Monad.{ok, M, ◌>>=◌}
use boltcard.Db.Authorize.{authorize_payment}
use boltcard.Db.Limits.{Permitted, ClaimedFrom, authorize_payment-Ensures}
use boltcard.Db.Hoare.{
  Ensures, Reads, Ensures-pure, Ensures-raise, Ensures-if, Ensures-bind, Ensures-read,
  Ensures-weaken,
}
use boltcard.Db.Hoare.Calls.{Reads-get_setting, Reads-or_raise, Reads-get_card_from_card_id}
use boltcard.Lnurlw.Callback.Checked.{Checked, checked_callback-Checked}
use boltcard.Lnurlw.Callback.{
  Job, pays_by_lnd, awaits_approval, pays_by_lndhub, sats_of, if_authorized, lnd_payment,
  lndhub_payment, login_parts, split_colon, callback,
}

abbrev pub payment_of : Job → ℕ
payment_of (pays_by_lnd id pr) = id
payment_of (awaits_approval id sats pr) = id
payment_of (pays_by_lndhub id pr sats login token) = id

abbrev pub invoice_of : Job → Text
invoice_of (pays_by_lnd id pr) = pr
invoice_of (awaits_approval id sats pr) = pr
invoice_of (pays_by_lndhub id pr sats login token) = pr

-- Whether the daily total and the balance count. They do not for LNDHUB.
abbrev pub counts_totals : Job → Bool
counts_totals (pays_by_lndhub id pr sats login token) = false
counts_totals _ = true

pub record Started (x : Externals) (req : Request) (now : ℕ) (t : Tables) (job : Job) (t' : Tables)
    : Type 0 where
  pub payment : Payment
  pub bolt11 : Bolt11
  pub recorded : Tables
  pub checked_first : Checked x req now t payment bolt11 recorded
  pub pays : payment_of job ≡ payment.card_payment_id
  pub to_invoice : invoice_of job ≡ get_param "pr" req
  pub permitted :
      Permitted now payment.card_payment_id (sats_of bolt11) (counts_totals job) recorded
  pub claimed : ClaimedFrom now payment.card_payment_id recorded t'

-- What an authorized job of a payment leaves.
abbrev Pays : (now id sats : ℕ) → Text → Tables → Job → Tables → Type 0
Pays now id sats pr t job t' =
    (payment_of job ≡ id)
    × (invoice_of job ≡ pr)
    × Permitted now id sats (counts_totals job) t
    × ClaimedFrom now id t t'

module _ (now : ℕ) (t : Tables) where
  authorized-Pays :
      (id sats : ℕ) (totals : Bool) (pr : Text) (start : M Job)
      → ((t' : Tables)
          → Permitted now id sats totals t × ClaimedFrom now id t t'
          → Ensures now t' start (Pays now id sats pr t))
      → Ensures now t
          (authorize_payment id sats totals >>= λ answer. if_authorized answer start)
          (Pays now id sats pr t)
  authorized-Pays id sats totals pr start go =
      Ensures-bind _ _ (authorize_payment-Ensures now id sats totals t)
        λ answer t' q. by_answer answer t' q
    where
      by_answer :
          (answer : Bool × String) (t' : Tables)
          → (answer.0 ≡ true → Permitted now id sats totals t × ClaimedFrom now id t t')
          → Ensures now t' (if_authorized answer start) (Pays now id sats pr t)
      by_answer (true, refusal) t' q = go t' (q refl)
      by_answer (false, refusal) t' q = Ensures-raise _

  lnd_payment-Pays :
      (p : Payment) (b : Bolt11) (pr : Text)
      → Ensures now t (lnd_payment p b pr) (Pays now p.card_payment_id (sats_of b) pr t)
  unfolding lnd_payment
  lnd_payment-Pays p b pr = authorized-Pays _ _ true pr _ λ t' q.
      Ensures-read _ _ (Reads-get_setting _)
        λ function_ntfy _. Ensures-pure _ (by_job (text_eq function_ntfy (codes "ENABLE")) t' q)
    where
      by_job :
          (ntfy : Bool) (t' : Tables)
          → Permitted now p.card_payment_id (sats_of b) true t
            × ClaimedFrom now p.card_payment_id t t'
          → Pays now p.card_payment_id
              (sats_of b)
              pr
              t
              (if ntfy
                then awaits_approval p.card_payment_id (sats_of b) pr
                else pays_by_lnd p.card_payment_id pr)
              t'
      by_job true t' (q, c) = (refl, refl, q, c)
      by_job false t' (q, c) = (refl, refl, q, c)

  Reads-login_parts : (parts : List Text) → Reads now t (login_parts parts) (λ _. Unit {0})
  unfolding login_parts
  Reads-login_parts (login ∷ password ∷ []) =
      Ensures-if (length login == 20 && length password == 20) _ _ (λ _. Ensures-pure _ (refl, tt))
        (λ _. Ensures-raise _)
  Reads-login_parts [] = Ensures-raise _
  Reads-login_parts (login ∷ []) = Ensures-raise _
  Reads-login_parts (login ∷ password ∷ other ∷ rest) = Ensures-raise _

  lndhub_payment-Pays :
      (auth : Text → Text → Text → Option Text) (p : Payment) (b : Bolt11) (pr : Text)
      → Ensures now t (lndhub_payment auth p b pr) (Pays now p.card_payment_id (sats_of b) pr t)
  unfolding lndhub_payment
  lndhub_payment-Pays auth p b pr = Ensures-read _ _ (Reads-get_setting _) λ url _.
      Ensures-read _ _ (Reads-get_card_from_card_id _) λ c _.
        Ensures-read _ _ (Reads-login_parts (split_colon c.card_name)) λ (login, password) _.
          Ensures-read _ _ (Reads-or_raise (auth url login password) failed)
            λ token _. authorized-Pays _ _ false pr _ λ t' (q, c). Ensures-pure _ (refl, refl, q, c)

callback-Ensures :
    (x : Externals) (auth : Text → Text → Text → Option Text) (req : Request) (now : ℕ) (t : Tables)
    → Ensures now t (callback x auth req) (Started x req now t)
unfolding callback
callback-Ensures x auth req now t =
    Ensures-bind _ _ (checked_callback-Checked x req now t) λ (p, b, pr) t' (e, checked).
      Ensures-read _ _ (Reads-get_setting _) λ lndhub _.
        Ensures-weaken _
          (λ job t'' (id, invoice, permitted, claimed). record {
            payment = p;
            bolt11 = b;
            recorded = t';
            checked_first = checked;
            pays = id;
            to_invoice = rw invoice e;
            permitted = permitted;
            claimed = claimed;
          })
          (Ensures-if (text_eq lndhub (codes "ENABLE")) _ _
            (λ _. lndhub_payment-Pays now t' auth p b pr) λ _. lnd_payment-Pays now t' p b pr)

-- Whatever faults the calls meet, a callback that starts a payment found its withdraw request
-- unused and in time, decoded the invoice and stored it on the request, had the right PIN where the
-- card and the amount ask for one, and claimed exactly that request: within the limit of the card
-- for one payment, and, where it does not pay through LNDHUB, within its daily limit and its
-- balance too. The job it starts pays that request's invoice.
pub callback-Started :
    (x : Externals) (auth : Text → Text → Text → Option Text) (req : Request) (job : Job) (db : Db)
    → (callback x auth req db).0 ≡ ok job
    → Started x req db.now db.tables job (callback x auth req db).1.tables
callback-Started x auth req job db e =
    ((callback-Ensures x auth req db.now db.tables).at db refl refl job e).1
