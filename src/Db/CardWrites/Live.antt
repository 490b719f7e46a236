-- ===== src/Db/CardWrites/Live.antt =====
-- The cards of a name that are not wiped.
use boltcard.Prelude.{◌≡◌, ◌≤◌, refl, List, [], ◌∷◌, false, arith}
use boltcard.Text.{Text, text_eq_refl, characters, cut-all}
use boltcard.Db.Schema.{CardRow, Db, violation}
use boltcard.Db.Monad.{ok, err, query, exec, open_db, next_fault, used, checked}
use boltcard.Db.Rows.{update_rows, count_rows}
use boltcard.Db.CardWrites.{
  NewCard, Pin, named, live_named, wiped_row, wipe_sql, new_row, fits_columns, insert_card_sql,
  insert_card_with_pin,
}

-- Wiping leaves no card of the name live.
wiped_none :
    (name : Text) (cs : List CardRow)
    → count_rows (live_named name) (update_rows (named name) wiped_row cs) ≡ 0
unfolding count_rows update_rows
wiped_none name [] = refl
wiped_none name (c ∷ cs) = ground (arith, wiped_none name cs)

pub inserted :
    (n : NewCard) (p : Pin) (db : Db)
    → (insert_card_with_pin n p db).0 ≡ ok tt
    → (insert_card_with_pin n p db).1.tables.cards
      ≡ new_row db.tables.next_card_id n p db.now
        ∷ update_rows (named n.card_name) wiped_row db.tables.cards
unfolding insert_card_with_pin open_db query exec insert_card_sql wipe_sql used checked
inserted n p db e = ground arith

-- Whatever faults the calls meet, where a card is inserted whose name has no more than 100 characters,
-- it is the one live card of its name.
pub insert_card_with_pin-live :
    (n : NewCard) (p : Pin) (db : Db)
    → characters n.card_name ≤ 100
    → (insert_card_with_pin n p db).0 ≡ ok tt
    → count_rows (live_named n.card_name) (insert_card_with_pin n p db).1.tables.cards ≡ 1
unfolding count_rows new_row
insert_card_with_pin-live n p db short e =
    rw (inserted n p db e, cut-all 100 n.card_name short, text_eq_refl n.card_name)
      (omega (arith, wiped_none n.card_name db.tables.cards))

-- With no fault, a card whose values do not fit their columns is refused, but the cards of its name
-- are wiped: none of them is live.
pub insert_card_with_pin-wipes :
    (n : NewCard) (p : Pin) (db : Db)
    → fits_columns n p ≡ false
    → db.faults ≡ []
    → ((insert_card_with_pin n p db).0 ≡ err violation)
      × (count_rows (live_named n.card_name) (insert_card_with_pin n p db).1.tables.cards ≡ 0)
unfolding insert_card_with_pin open_db query exec insert_card_sql wipe_sql used checked next_fault
insert_card_with_pin-wipes n p db bad f = rw (f, bad) (refl, wiped_none n.card_name db.tables.cards)
