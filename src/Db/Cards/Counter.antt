-- ===== src/Db/Cards/Counter.antt =====
-- The counter of a card only goes forward.
pub mod Once
use boltcard.Prelude.{
  ℕ, ◌≤◌, ◌≡◌, refl, ◌≢◌, List, [], ◌∷◌, Bool, true, false, ◌&&◌, ◌==◌, ltb, arith,
}
use boltcard.Db.Schema.{CardRow, Db}
use boltcard.Db.Monad.{ok, query, exec, open_db, used}
use boltcard.Db.Rows.{update_rows, count_rows}
use boltcard.Db.Cards.{counter_sql, check_and_update_counter}

-- No card of the id has a counter below `n`.
abbrev pub Reached : ℕ → ℕ → List CardRow → Type 0
Reached id n cs = count_rows (λ c. c.card_id == id && ltb c.last_counter_value n) cs ≡ 0

pub check_none :
    (id n : ℕ) (db : Db)
    → Reached id n db.tables.cards
    → (check_and_update_counter id n db).0 ≢ ok true
unfolding check_and_update_counter open_db query exec counter_sql used
check_none id n db e = ground arith

pub Reached-update :
    (id n m : ℕ) (p : CardRow → Bool) (f : CardRow → CardRow) (cs : List CardRow)
    → n ≤ m
    → ((c : CardRow) → (f c).card_id ≡ c.card_id)
    → ((c : CardRow) → (f c).last_counter_value ≡ m)
    → ((c : CardRow) → p c ≡ false → (c.card_id == id && ltb c.last_counter_value n) ≡ false)
    → Reached id n (update_rows p f cs)
unfolding count_rows update_rows
Reached-update id n m p f [] le same at other = refl
Reached-update id n m p f (c ∷ cs) le same at other =
    ground (arith, same c, at c, other c, Reached-update id n m p f cs le same at other)

pub counted :
    (id n : ℕ) (db : Db)
    → (check_and_update_counter id n db).0 ≡ ok true
    → (check_and_update_counter id n db).1.tables.cards
      ≡ update_rows
          (λ c. c.card_id == id && ltb c.last_counter_value n)
          (λ c. record c { last_counter_value = n })
          db.tables.cards
unfolding check_and_update_counter open_db query exec counter_sql used
counted id n db e = ground arith
