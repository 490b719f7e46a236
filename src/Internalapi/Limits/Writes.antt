-- ===== src/Internalapi/Limits/Writes.antt =====
-- What the statements that write cards do to the limits.
use boltcard.Prelude.{◌≡◌, refl, Bool, true, ◌&&◌, [], arith, All}
use boltcard.Prelude.Int.{ℤ}
use boltcard.Text.{Text, text_eq, fits, pad}
use boltcard.Db.Schema.{CardRow, fits_int4}
use boltcard.Db.Monad.{exec}
use boltcard.Db.Rows.{All-update_rows}
use boltcard.Db.CardWrites.{
  NewCard, Pin, default_pin, yn, wipe_sql, insert_card_sql, new_row, insert_card,
  insert_card_with_pin, update_card_sql, update_pin_sql, update_card, update_card_with_pin,
  update_card_with_part_pin,
}
use boltcard.Db.Keeps.{
  Preserved, Keeps, Respects-checked, Keeps-if, Keeps-open_db, Keeps-bind, Keeps-exec,
  Keeps-expect_one,
}
use boltcard.Internalapi.Validate.{limit_valid}
use boltcard.Internalapi.Update.{write_pin}

-- The limits of a card are not negative.
abbrev pub LimitsValid : CardRow → Type 0
LimitsValid c =
    (limit_valid c.tx_limit_sats ≡ true)
    × (limit_valid c.day_limit_sats ≡ true)
    × (limit_valid c.pin_limit_sats ≡ true)

abbrev pub limits : Preserved
limits = record {
  Rel = λ t u. All LimitsValid t.cards → All LimitsValid u.cards;
  same = λ t h. h;
  trans = λ t u v p q h. q (p h);
}

pub wipe-LimitsValid : (name : Text) → Keeps limits (exec (wipe_sql name))
unfolding wipe_sql
wipe-LimitsValid name =
    Keeps-exec _ λ now t h. All-update_rows LimitsValid _ _ t.cards (λ c p v. v) h

insert-LimitsValid :
    (n : NewCard) (p : Pin)
    → (limit_valid n.tx_limit_sats && limit_valid n.day_limit_sats) ≡ true
    → limit_valid p.pin_limit_sats ≡ true
    → Keeps limits (exec (insert_card_sql n p))
unfolding insert_card_sql new_row
insert-LimitsValid n p both pin =
    Keeps-exec _ (Respects-checked limits _ _ λ now t h. ((ground arith, ground arith, pin), h))

pub insert_card-LimitsValid :
    (n : NewCard)
    → (limit_valid n.tx_limit_sats && limit_valid n.day_limit_sats) ≡ true
    → Keeps limits (insert_card n)
unfolding insert_card limit_valid
insert_card-LimitsValid n both = Keeps-bind _ _ Keeps-open_db λ _.
    Keeps-bind _ _ (wipe-LimitsValid n.card_name) λ _.
      Keeps-bind _ _ (insert-LimitsValid n default_pin both refl) λ count. Keeps-expect_one _ count

pub insert_card_with_pin-LimitsValid :
    (n : NewCard) (p : Pin)
    → (limit_valid n.tx_limit_sats && limit_valid n.day_limit_sats) ≡ true
    → limit_valid p.pin_limit_sats ≡ true
    → Keeps limits (insert_card_with_pin n p)
unfolding insert_card_with_pin
insert_card_with_pin-LimitsValid n p both pin = Keeps-bind _ _ Keeps-open_db λ _.
    Keeps-bind _ _ (wipe-LimitsValid n.card_name)
      λ _. Keeps-bind _ _ (insert-LimitsValid n p both pin) λ count. Keeps-expect_one _ count

pub update_card-LimitsValid :
    (name : Text) (on : Bool) (tx day : ℤ)
    → (limit_valid tx && limit_valid day) ≡ true
    → Keeps limits (update_card name on tx day)
unfolding update_card update_card_sql
update_card-LimitsValid name on tx day both = Keeps-bind _ _ Keeps-open_db λ _.
    Keeps-bind _ _
      (Keeps-exec _ (
        Respects-checked limits _ _ λ now t h.
          All-update_rows LimitsValid _ _ t.cards (λ c p v. (ground arith, ground arith, v.2)) h))
      λ n. Keeps-expect_one _ n

-- An update that sets the limits, and the PIN columns by `set_pin`.
update_pin-LimitsValid :
    (name : Text) (on : Bool) (tx day : ℤ) (fits : Bool) (set_pin : CardRow → CardRow)
    → ((c : CardRow)
        → LimitsValid (
            set_pin (record c { lnurlw_enable = yn on; tx_limit_sats = tx; day_limit_sats = day })))
    → Keeps limits (exec (update_pin_sql name on tx day fits set_pin))
unfolding update_pin_sql
update_pin-LimitsValid name on tx day fits set_pin keep = Keeps-exec _ (
    Respects-checked limits _ _
      λ now t h. All-update_rows LimitsValid _ _ t.cards (λ c p v. keep c) h)

pub write_pin-LimitsValid :
    (name : Text) (on : Bool) (tx day : ℤ) (pin_on : Bool) (pin : Text) (limit : ℤ)
    → (limit_valid tx && limit_valid day) ≡ true
    → limit_valid limit ≡ true
    → Keeps limits (write_pin name on tx day pin_on pin limit)
unfolding write_pin update_card_with_pin update_card_with_part_pin
write_pin-LimitsValid name on tx day pin_on pin limit both ok_limit =
    let valid : (limit_valid tx ≡ true) × (limit_valid day ≡ true) × (limit_valid limit ≡ true) =
      (ground arith, ground arith, ok_limit) in
    Keeps-if (text_eq pin []) _ _
      (Keeps-bind _ _ Keeps-open_db λ _.
        Keeps-bind _ _
          (update_pin-LimitsValid name on tx day (fits_int4 limit)
            (λ c. record c { pin_enable = yn pin_on; pin_limit_sats = limit }) λ c. valid)
          λ n. Keeps-expect_one _ n)
      (Keeps-bind _ _ Keeps-open_db λ _.
        Keeps-bind _ _
          (update_pin-LimitsValid name on tx day (fits 4 pin && fits_int4 limit)
            (λ c. record c {
              pin_enable = yn pin_on;
              pin_number = pad 4 pin;
              pin_limit_sats = limit;
            })
            λ c. valid)
          λ n. Keeps-expect_one _ n)
