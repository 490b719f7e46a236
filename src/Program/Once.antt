-- ===== src/Program/Once.antt =====
-- A one-time code gives the keys of a card once.
use boltcard.Prelude.{ℕ, ◌≡◌, ◌≢◌, refl, sym, not, List, [], ◌∷◌, none, arith}
use mathlib.Core.Path.{subst}
use boltcard.Text.{Text, text_eq, bpchar_eq}
use boltcard.Http.{Request, get_param}
use boltcard.Db.Schema.{CardRow, Tables, Db, no_rows, failed, violation, message}
use boltcard.Db.Monad.{Result, ok, err, M}
use boltcard.Db.Rows.{select_row, update_rows}
use boltcard.Db.Cards.{get_new_card, is_new_card, use_one_time_code_sql, update_cards}
use boltcard.Db.Calls.{wait}
use boltcard.Db.Hoare.{
  Ensures, Ensures-pure, Ensures-bind, Ensures-read, Ensures-exec, Reads-open_db, Reads-query,
}
use boltcard.Db.Hoare.Calls.{Reads-get_setting, Reads-ensure}
use boltcard.Program.{NewCardResponse, used_or_wiped, new_card_request}

-- No card can be set up with the code, at any time.
abbrev pub UsedUp : Text → Tables → Type 0
UsedUp code t = (now : ℕ) → select_row (is_new_card now code) t.cards ≡ none

no_new_card :
    (now : ℕ) (code : Text) (cs : List CardRow)
    → select_row (is_new_card now code) (
        update_rows
          (λ c. bpchar_eq c.one_time_code code)
          (λ c. record c { one_time_code_used = b'Y' })
          cs)
      ≡ none
unfolding select_row update_rows is_new_card
no_new_card now code [] = refl
no_new_card now code (c ∷ cs) = ground (arith, no_new_card now code cs)

module _ {now : ℕ} {t : Tables} where
  get_new_card-UsedUp : (code : Text) → Ensures now t (get_new_card code) (λ _ t'. UsedUp code t')
  unfolding get_new_card use_one_time_code_sql update_cards
  get_new_card-UsedUp code = Ensures-read _ _ Reads-open_db λ _ _.
      Ensures-read _ _ (Reads-query _) λ c _.
        Ensures-bind _ _ (Ensures-exec _)
          λ n t' e. Ensures-pure c λ now'. ground (arith, e, no_new_card now' code t.cards)

  get_new_card-refused :
      (code : Text) → UsedUp code t → Ensures now t (get_new_card code) (λ _ t'. ⊥)
  unfolding get_new_card
  get_new_card-refused code u =
      Ensures-read _ _ Reads-open_db
        λ _ _. Ensures-read _ _ (Reads-query _) λ c found. absurd (ground (arith, u now, found))

  Ensures-used_or_wiped :
      {A : Type 0} {Q : A → Tables → Type 0} (m : M A)
      → Ensures now t m Q
      → Ensures now t (λ db. (used_or_wiped (m db).0, (m db).1)) Q
  Ensures-used_or_wiped {A = A} m h = record {
    at = λ db n s a e. h.at db n s a (same (m db).0 a e);
  }
    where
      same : (r : Result A) (a : A) → used_or_wiped r ≡ ok a → r ≡ ok a
      same (ok b) a e = e
      same (err no_rows) a e = absurd (cc)
      same (err failed) a e = e
      same (err violation) a e = e
      same (err (message text)) a e = e

  request-UsedUp :
      (req : Request) → Ensures now t (new_card_request req) (λ _ t'. UsedUp (get_param "a" req) t')
  unfolding new_card_request
  request-UsedUp req =
      Ensures-read _ _ (Reads-ensure (not (text_eq (get_param "a" req) [])) _) λ _ _.
        Ensures-read _ _ (Reads-get_setting _) λ host _.
          Ensures-bind _ _ (Ensures-used_or_wiped _ (get_new_card-UsedUp (get_param "a" req)))
            λ c t' u. Ensures-read _ _ (Reads-get_setting _) λ k1 _. Ensures-pure _ u

  request-refused :
      (req : Request)
      → UsedUp (get_param "a" req) t
      → Ensures now t (new_card_request req) (λ _ t'. ⊥)
  unfolding new_card_request
  request-refused req u =
      Ensures-read _ _ (Reads-ensure (not (text_eq (get_param "a" req) [])) _) λ _ _.
        Ensures-read _ _ (Reads-get_setting _) λ host _.
          Ensures-bind _ _ (Ensures-used_or_wiped _ (get_new_card-refused (get_param "a" req) u))
            λ c t' never. absurd never

-- A one-time code gives out keys once. Whatever the faults of the database, where a request with a
-- code was answered with the keys of a card, the next request with the same code, at any later
-- time, is refused.
pub new_card_request_once :
    (req req' : Request) (n : ℕ) (keys keys' : NewCardResponse) (db : Db)
    → get_param "a" req' ≡ get_param "a" req
    → (new_card_request req db).0 ≡ ok keys
    → (new_card_request req' (wait n (new_card_request req db).1)).0 ≢ ok keys'
unfolding wait
new_card_request_once req req' n keys keys' db same first second =
    let (_, u) = (request-UsedUp req).at db refl refl keys first in
    let (_, refused) =
      (request-refused req'
          (subst (λ a. UsedUp a (new_card_request req db).1.tables) (sym same) u)).at
        _ refl refl keys' second in
    refused
