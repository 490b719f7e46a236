-- ===== src/Lnurlw/Tap/Accepted.antt =====
-- What holds where a tap is accepted.
use boltcard.Prelude.{ℕ, ◌≡◌, refl, sym, some, Bool, true, ◌==◌, ==_iff}
use boltcard.Text.{Text}
use boltcard.Text.Hex.{decode_string}
use boltcard.Externals.{Externals}
use boltcard.Db.Schema.{Db, Tables, Card, failed, message}
use boltcard.Db.Monad.{ok}
use boltcard.Db.Cards.{check_and_update_counter, counter_sql}
use boltcard.Db.Hoare.{
  Ensures, Reads, Ensures-pure, Ensures-bind, Ensures-read, Ensures-exec, Reads-open_db,
  Ensures-weaken,
}
use boltcard.Db.Hoare.Calls.{Reads-ensure, Reads-or_raise}
use boltcard.Lnurlw.Tap.{check_cmac, counter_value, card_cmac_valid, accept_tap}

-- The card is enabled, its key gives the CMAC of the UID and the counter, and its counter, which was
-- lower, becomes the counter of the tap.
pub record Accepted (x : Externals) (uid ctr ba_c : Text) (now : ℕ) (c : Card) (t t' : Tables)
    : Type 0 where
  pub enabled : c.lnurlw_enable ≡ b'Y'
  pub key : Text
  pub is_key : decode_string c.k2_cmac_key ≡ some key
  pub cmac : check_cmac x uid ctr key ba_c ≡ some true
  pub counted : counter_sql c.card_id (counter_value ctr) now t ≡ ok (t', 1)

check_and_update_counter-Ensures :
    (now : ℕ) (t : Tables) (id n : ℕ)
    → Ensures now t
        (check_and_update_counter id n)
        (λ b t'. b ≡ true → counter_sql id n now t ≡ ok (t', 1))
unfolding check_and_update_counter
check_and_update_counter-Ensures now t id n = Ensures-read _ _ Reads-open_db λ _ _.
    Ensures-bind _ _ (Ensures-exec (counter_sql id n))
      λ k t' e. Ensures-pure _ λ one. rw (sym ((==_iff k 1).0 one)) e

-- The key, and the CMAC under it.
record CmacOf (x : Externals) (k2_hex uid ctr ba_c : Text) (valid : Bool) : Type 0 where
  key : Text
  is_key : decode_string k2_hex ≡ some key
  cmac : check_cmac x uid ctr key ba_c ≡ some valid

Reads-card_cmac_valid :
    (x : Externals) (now : ℕ) (t : Tables) (k2_hex uid ctr ba_c : Text)
    → Reads now t (card_cmac_valid x k2_hex uid ctr ba_c) (CmacOf x k2_hex uid ctr ba_c)
unfolding card_cmac_valid
Reads-card_cmac_valid x now t k2_hex uid ctr ba_c =
    Ensures-read _ _ (Reads-or_raise (decode_string k2_hex) failed) λ key is_key.
      Ensures-weaken _
        (λ valid t' (s, cmac). (s, record { key = key; is_key = is_key; cmac = cmac }))
        (Reads-or_raise (check_cmac x uid ctr key ba_c) failed)

pub accept_tap-Ensures :
    (x : Externals) (uid ctr ba_c : Text) (c : Card) (now : ℕ) (t : Tables)
    → Ensures now t
        (accept_tap x uid ctr ba_c c)
        (λ id t'. (id ≡ c.card_id) × Accepted x uid ctr ba_c now c t t')
unfolding accept_tap
accept_tap-Ensures x uid ctr ba_c c now t =
    Ensures-read _ _
      (Reads-ensure (c.lnurlw_enable == b'Y') (message "card lnurlw enable is not set to Y"))
      λ _ on.
        Ensures-read _ _ (Reads-card_cmac_valid x now t c.k2_cmac_key uid ctr ba_c) λ valid of.
          Ensures-read _ _ (Reads-ensure valid (message "cmac incorrect")) λ _ is_valid.
            Ensures-bind _ _ (check_and_update_counter-Ensures now t c.card_id (counter_value ctr))
              λ up t' counted.
                Ensures-read _ _ (Reads-ensure up (message "counter not increasing")) λ _ is_up.
                  Ensures-pure _ (
                    refl,
                    record {
                      enabled = (==_iff _ _).0 on;
                      key = of.key;
                      is_key = of.is_key;
                      cmac = rw (sym is_valid) of.cmac;
                      counted = counted is_up;
                    },
                  )

-- Whatever faults the calls meet, where the checks on the card of a tap pass, the card is enabled, its
-- key gives the CMAC of the tap's UID and counter, and its counter was below the tap's, to which it
-- is set.
pub accept_tap-Accepted :
    (x : Externals) (uid ctr ba_c : Text) (c : Card) (id : ℕ) (db : Db)
    → (accept_tap x uid ctr ba_c c db).0 ≡ ok id
    → (id ≡ c.card_id)
      × Accepted x uid ctr ba_c db.now c db.tables (accept_tap x uid ctr ba_c c db).1.tables
accept_tap-Accepted x uid ctr ba_c c id db e =
    ((accept_tap-Ensures x uid ctr ba_c c db.now db.tables).at db refl refl id e).1
