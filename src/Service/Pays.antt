-- ===== src/Service/Pays.antt =====
-- A callback starts a payment only for an authorization of its own.
use boltcard.Prelude.{
  ℕ, ◌≡◌, ◌≤◌, refl, Bool, true, false, ◌&&◌, ◌+◌, [], ◌∷◌, Option, String, ◌==◌, arith,
  if◌then◌else◌,
}
use boltcard.Text.{Text, codes, text_eq}
use boltcard.Externals.{Externals, Bolt11}
use boltcard.Http.{Request}
use boltcard.Db.Schema.{Payment, failed}
use boltcard.Db.Monad.{M, Result, ok, err, pure, ◌>>=◌}
use boltcard.Db.Settings.{get_setting}
use boltcard.Db.Cards.{get_card_from_card_id}
use boltcard.Db.Authorize.{authorize_payment}
use boltcard.Db.Calls.{run, step, claims, claims_at, authorized, authorizes_payment}
use boltcard.Db.Runs.{owed_by, Traced, Traced-bind, Runs, Runs-Traced, Runs-or_raise}
use boltcard.Db.Runs.Calls.{get_setting-Runs, get_card_from_card_id-Runs}
use boltcard.Lnurlw.Tap.{or_raise}
use boltcard.Lnurlw.Callback.Runs.{login_parts-Runs, checked_callback-Runs}
use boltcard.Lnurlw.Callback.{
  login_parts, split_colon, Job, pays_by_lnd, awaits_approval, pays_by_lndhub, if_authorized,
  lnd_payment, lndhub_payment, checked_callback, callback, sats_of,
}

abbrev counts : ℕ → ℕ → ℕ
counts other id = if other == id then 1 else 0

-- Whether a job is for the payment `id`.
unfoldable pub starts : Job → ℕ → ℕ
starts (pays_by_lnd other pr) id = counts other id
starts (awaits_approval other sats pr) id = counts other id
starts (pays_by_lndhub other pr sats login token) id = counts other id

abbrev nothing : ℕ → ℕ
nothing id = 0

-- An answer of `Authorize_payment` is worth a payment where it is `true`.
abbrev worth : ℕ → Bool × String → ℕ → ℕ
worth other answer id = if answer.0 then counts other id else 0

worth-le :
    (other id : ℕ) (r : Result (Bool × String))
    → owed_by (worth other) r id ≤ 0 + ((if other == id && authorized r then 1 else 0) + 0)
worth-le other id (ok (true, text)) = ground arith
worth-le other id (ok (false, text)) = omega arith
worth-le other id (err e) = omega arith

authorize_payment-Traced :
    (other sats : ℕ) (totals : Bool)
    → Traced nothing (worth other) (authorize_payment other sats totals)
authorize_payment-Traced other sats totals = record {
  at = λ db. record {
    calls = authorizes_payment other sats totals ∷ [];
    leads = unfold run step in refl;
    covers = λ id.
        unfold claims claims_at in worth-le other id (authorize_payment other sats totals db).0;
  };
}

-- Starting a job for the payment, where the answer is worth it.
if_authorized-Traced :
    (other : ℕ) (answer : Bool × String) (start : M Job)
    → Traced (counts other) starts start
    → Traced (worth other answer) starts (if_authorized answer start)
if_authorized-Traced other (true, text) start h = h
if_authorized-Traced other (false, text) start h = record {
  at = λ db. record { calls = []; leads = unfold run in refl; covers = λ id. omega arith };
}

-- What only reads before a job leaves the credit.
Traced-after :
    {A : Type 0} {credit : ℕ → ℕ} (m : M A) (f : A → M Job)
    → Runs m
    → ((a : A) → Traced credit starts (f a))
    → Traced credit starts (m >>= f)
Traced-after m f hm hf = Traced-bind m f (Runs-Traced m hm) hf

job-Traced :
    (other : ℕ) (job : Job)
    → ((id : ℕ) → starts job id ≡ counts other id)
    → Traced (counts other) starts (pure job)
job-Traced other job same = record {
  at = λ db. record {
    calls = [];
    leads = unfold run in refl;
    covers = λ id. rw (same id) (omega arith);
  };
}

either_job :
    (b : Bool) (other sats : ℕ) (pr : Text) (id : ℕ)
    → starts (if b then awaits_approval other sats pr else pays_by_lnd other pr) id
      ≡ counts other id
unfolding starts
either_job true other sats pr id = refl
either_job false other sats pr id = refl

lnd_payment-Traced :
    (p : Payment) (b : Bolt11) (pr : Text) → Traced nothing starts (lnd_payment p b pr)
unfolding lnd_payment text_eq
lnd_payment-Traced p b pr =
    Traced-bind _ _ (authorize_payment-Traced p.card_payment_id (sats_of b) true) λ answer.
      if_authorized-Traced p.card_payment_id answer _ (
        Traced-after (get_setting "FUNCTION_NTFY") _ (get_setting-Runs _) λ value.
          job-Traced p.card_payment_id _ λ id. either_job (text_eq value (codes "ENABLE")) _ _ _ id)

lndhub_payment-Traced :
    (auth : Text → Text → Text → Option Text) (p : Payment) (b : Bolt11) (pr : Text)
    → Traced nothing starts (lndhub_payment auth p b pr)
unfolding lndhub_payment starts
lndhub_payment-Traced auth p b pr =
    Traced-after (get_setting "LNDHUB_URL") _ (get_setting-Runs _) λ url.
      Traced-after (get_card_from_card_id p.card_id) _ (get_card_from_card_id-Runs _) λ c.
        Traced-after (login_parts (split_colon c.card_name)) _
          (login_parts-Runs (split_colon c.card_name))
          λ (login, password).
            Traced-after (or_raise (auth url login password) failed) _ (Runs-or_raise _ _) λ token.
              Traced-bind _ _ (authorize_payment-Traced p.card_payment_id (sats_of b) false)
                λ answer.
                  if_authorized-Traced p.card_payment_id answer _
                    (job-Traced p.card_payment_id _ λ id. refl)

module _ (x : Externals) (auth : Text → Text → Text → Option Text) (r : Request) where
  pub callback-Traced : Traced nothing starts (callback x auth r)
  unfolding callback text_eq
  callback-Traced = Traced-after (checked_callback x r) _ (checked_callback-Runs x r) λ (p, b, pr).
      Traced-after (get_setting "FUNCTION_LNDHUB") _ (get_setting-Runs _)
        λ lndhub. by_lndhub (text_eq lndhub (codes "ENABLE")) p b pr
    where
      by_lndhub :
          (hub : Bool) (p : Payment) (b : Bolt11) (pr : Text)
          → Traced nothing starts (if hub then lndhub_payment auth p b pr else lnd_payment p b pr)
      by_lndhub true p b pr = lndhub_payment-Traced auth p b pr
      by_lndhub false p b pr = lnd_payment-Traced p b pr
