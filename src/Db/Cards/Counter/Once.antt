-- ===== src/Db/Cards/Counter/Once.antt =====
-- The counter of a card that was accepted, in the histories that follow.
use boltcard.Prelude.{
  ℕ, ◌≤◌, ◌<◌, ◌≡◌, ◌≢◌, refl, ◌∙◌, List, [], ◌∷◌, Bool, true, ◌&&◌, ◌==◌, ltb, arith, All, some,
  ap,
}
use boltcard.Db.Schema.{Tables, CardRow, Db}
use boltcard.Db.Monad.{ok}
use boltcard.Db.Rows.{count_rows, count_rows-update-le}
use boltcard.Db.Payments.{
  update_payments, insert_payment_sql, update_payment_invoice_sql, fail_payment_sql,
  release_payment_sql, update_payment_status_sql,
}
use boltcard.Db.Approvals.{
  update_payment_ntfy_sql, create_payment_ntfy_token_sql, approve_payment_by_token_sql,
}
use boltcard.Db.Authorize.{claim_sql}
use boltcard.Db.Receipts.{insert_receipt_sql, update_receipt_state_sql}
use boltcard.Db.Cards.{
  update_cards, use_one_time_code_sql, update_card_uid_ctr_sql, counter_sql,
  check_and_update_counter,
}
use boltcard.Db.CardWrites.{
  NewCard, Pin, yn, wipe_sql, insert_card_sql, new_row, update_card_sql, update_pin_sql,
}
use boltcard.Db.Keeps.{Preserved, Respects, Respects-checked}
use boltcard.Db.Keeps.Statements.{Lawful}
use boltcard.Db.Keeps.Calls.{set_up_of, run-keeps, check_and_update_counter-Keeps}
use boltcard.Db.Calls.{Call, run}
use boltcard.Db.Cards.Counter.{Reached, counted, check_none, Reached-update}

module _ (id n : ℕ) where
  -- A card that exists and has reached the counter still has.
  record Kept (t u : Tables) : Type 0 where
    ids : t.next_card_id ≤ u.next_card_id
    reached : id < t.next_card_id → Reached id n t.cards → Reached id n u.cards

  abbrev kept : Preserved
  kept = record {
    Rel = Kept;
    same = λ t. record { ids = omega arith; reached = λ lt h. h };
    trans = λ t u v p q. record {
      ids = omega (arith, p.ids, q.ids);
      reached = λ lt h. q.reached (omega (arith, lt, p.ids)) (p.reached lt h);
    };
  }

  cards_same : (t u : Tables) → u.cards ≡ t.cards → u.next_card_id ≡ t.next_card_id → Kept t u
  cards_same t u e m = record { ids = omega (arith, m); reached = λ lt h. rw e h }

  -- Whether a row has a counter below `n`.
  abbrev lower : CardRow → Bool
  lower c = c.card_id == id && ltb c.last_counter_value n

  -- An update that lowers no counter.
  update_cards-Kept :
      (p : CardRow → Bool) (f : CardRow → CardRow)
      → ((c : CardRow) → p c ≡ true → lower (f c) ≡ true → lower c ≡ true)
      → Respects kept (update_cards p f)
  unfolding update_cards
  update_cards-Kept p f same now t = record {
    ids = omega arith;
    reached = λ lt h. omega (arith, h, count_rows-update-le lower p f t.cards same);
  }

  insert_card-Kept : (m : NewCard) (p : Pin) → Respects kept (insert_card_sql m p)
  unfolding insert_card_sql new_row count_rows
  insert_card-Kept m p =
      Respects-checked kept _ _
        λ now t. record { ids = omega arith; reached = λ lt h. ground (arith, lt, h) }

  kept_laws : Lawful kept (λ i. i ≢ id)
  unfolding insert_payment_sql update_payment_invoice_sql claim_sql fail_payment_sql
      release_payment_sql update_payment_status_sql update_payment_ntfy_sql
      create_payment_ntfy_token_sql approve_payment_by_token_sql use_one_time_code_sql
      update_card_uid_ctr_sql counter_sql wipe_sql update_card_sql update_pin_sql insert_receipt_sql
      update_receipt_state_sql update_payments
  kept_laws = record {
    use_code_law = λ code. update_cards-Kept _ _ λ c p h. h;
    uid_ctr_law = λ i uid ctr other.
        Respects-checked kept _ _ (update_cards-Kept _ _ λ c p h. ground (arith, other, p, h));
    counter_law = λ i ctr. update_cards-Kept _ _ λ c p h. ground (arith, p, h);
    wipe_law = λ name. update_cards-Kept _ _ λ c p h. h;
    insert_card_law = insert_card-Kept;
    update_card_law =
        λ name enable tx day. Respects-checked kept _ _ (update_cards-Kept _ _ λ c p h. h);
    update_pin_law = λ name enable tx day fits set_pin same counter. Respects-checked kept _ _ (
        update_cards-Kept _ _ λ c p h.
          let c' : CardRow = record c {
            lnurlw_enable = yn enable;
            tx_limit_sats = tx;
            day_limit_sats = day;
          } in
          ground (arith, same c', counter c', h));
    insert_receipt_law =
        λ i pr hash amount. Respects-checked kept _ _ λ now t. cards_same t _ refl refl;
    receipt_state_law = λ hash s now t. cards_same t _ refl refl;
    insert_payment_law = λ i k1. Respects-checked kept _ _ λ now t. cards_same t _ refl refl;
    invoice_law = λ i pr amount. Respects-checked kept _ _ λ now t. cards_same t _ refl refl;
    claim_law = λ i now t. cards_same t _ refl refl;
    fail_law = λ i reason now t. cards_same t _ refl refl;
    release_law = λ i reason now t. cards_same t _ refl refl;
    status_law = λ i s reason now t. cards_same t _ refl refl;
    ntfy_law = λ i flag now t. cards_same t _ refl refl;
    token_law = λ i token. Respects-checked kept _ _ λ now t. cards_same t _ refl refl;
    approve_law = λ token flag now t. cards_same t _ refl refl;
  }

-- A tap that is played back is refused. Whatever faults the calls meet, once a counter of a card that
-- exists was accepted, neither it nor a lower one is accepted after any calls by any number of
-- requests, unless one of them sets that card up.
pub check_and_update_counter_once :
    (id n k : ℕ) (cs : List Call) (db : Db)
    → k ≤ n
    → id < db.tables.next_card_id
    → All (λ c. set_up_of c ≢ some id) cs
    → (check_and_update_counter id n db).0 ≡ ok true
    → (check_and_update_counter id k (run (check_and_update_counter id n db).1 cs)).0 ≢ ok true
check_and_update_counter_once id n k cs db le exists no_set_up e =
    let first : Db = (check_and_update_counter id n db).1 in
    let there : id < first.tables.next_card_id =
      omega (arith, exists, ((check_and_update_counter-Keeps (kept_laws id k) id n).at db).ids) in
    let reached : Reached id k first.tables.cards = rw (counted id n db e) (
      Reached-update id k n _ _ db.tables.cards le (λ c. refl) (λ c. refl)
        (λ c f. ground (arith, f, le))) in
    check_none id k _
      ((run-keeps (kept_laws id k) first cs (spared cs no_set_up)).reached there reached)
  where
    spared :
        (cs : List Call)
        → All (λ c. set_up_of c ≢ some id) cs
        → All (λ c. (i : ℕ) → set_up_of c ≡ some i → i ≢ id) cs
    spared [] none_of = none_of
    spared (c ∷ cs) h = ((λ i is same. h.0 (is ∙ ap some same)), spared cs h.1)
