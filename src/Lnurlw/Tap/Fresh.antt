-- ===== src/Lnurlw/Tap/Fresh.antt =====
-- No card with the UID of a tap has a counter below that of the tap.
use boltcard.Prelude.{ℕ, ◌≡◌, ◌⊎◌, inl, inr, refl, ◌∙◌, Bool, true, false, ◌&&◌, List, ◌==◌, arith}
use boltcard.Text.{Text}
use boltcard.Db.Schema.{Tables, CardRow}
use boltcard.Db.Rows.{count_rows, count_rows-kept, update_rows}
use boltcard.Db.Payments.{card_with_id}
use boltcard.Db.Cards.{has_uid, update_cards, update_card_uid_ctr_sql}
use boltcard.Db.Cards.Counter.{Reached, Reached-update}
use boltcard.Db.Keeps.{Preserved, Respects, Respects-checked}

-- The live rows of a card that have the UID.
abbrev pub of_uid : Text → ℕ → CardRow → Bool
of_uid uid id c = has_uid uid c && c.card_id == id

-- No card with the UID has a counter below `n`.
abbrev pub Fresh : Text → ℕ → Tables → Type 0
Fresh uid n t = (id : ℕ) → (count_rows (of_uid uid id) t.cards ≡ 0) ⊎ Reached id n t.cards

unfoldable pub fresh : Text → ℕ → Preserved
fresh uid n = record {
  Rel = λ t u. Fresh uid n t → Fresh uid n u;
  same = λ t h. h;
  trans = λ t u v p q h. q (p h);
}

-- A card that gets the UID gets the counter with it.
pub set_up-Fresh :
    (uid : Text) (n card_id : ℕ) → Respects (fresh uid n) (update_card_uid_ctr_sql card_id uid n)
unfolding fresh update_card_uid_ctr_sql update_cards
set_up-Fresh uid n card_id =
    Respects-checked (fresh uid n) _ _ λ now t h id. by_id t.cards id (h id) (id == card_id) refl
  where
    set : CardRow → CardRow
    set c = record c { uid = uid; last_counter_value = n }

    by_id :
        (cs : List CardRow) (id : ℕ)
        → (count_rows (of_uid uid id) cs ≡ 0) ⊎ Reached id n cs
        → (b : Bool) → (id == card_id) ≡ b
        → (count_rows (of_uid uid id) (update_rows (card_with_id card_id) set cs) ≡ 0)
          ⊎ Reached id n (update_rows (card_with_id card_id) set cs)
    by_id cs id h true e = inr (
        Reached-update id n n _ set cs (omega arith) (λ c. refl) (λ c. refl)
          λ c other. ground (arith, e, other))
    by_id cs id (inl no_row) false e = inl (
        count_rows-kept (of_uid uid id) (card_with_id card_id) set cs (λ c h. ground (arith, e, h))
        ∙ no_row)
    by_id cs id (inr reached) false e =
        inr
          (count_rows-kept _ (card_with_id card_id) set cs (λ c h. ground (arith, e, h)) ∙ reached)
