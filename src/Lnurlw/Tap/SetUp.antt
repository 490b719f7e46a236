-- ===== src/Lnurlw/Tap/SetUp.antt =====
-- The tap that sets a card up.
use mathlib.Core.Path.{subst}
use boltcard.Prelude.{
  ℕ, ◌≡◌, ◌≢◌, ◌⊎◌, inl, inr, refl, sym, ◌∙◌, Bool, true, false, Option, some, List, [], ◌∷◌, ◌==◌,
  arith, ap, none, ◌≤◌, if◌then◌else◌, not, ltb, take, drop,
}
use boltcard.Text.{Text}
use boltcard.Text.Hex.{encode_to_string}
use boltcard.Externals.{Externals}
use boltcard.Http.{Request}
use boltcard.Db.Schema.{Tables, Card, CardRow, Db, Error, message}
use boltcard.Db.Monad.{ok, M, pure, ◌>>=◌, open_db}
use boltcard.Db.Rows.{
  scan, select_row, select_row-holds, select_row-counted, count_rows, count_rows-le,
}
use boltcard.Db.Cards.{
  has_uid, update_cards, update_card_uid_ctr, get_cards_blank_uid, get_card_count_for_uid,
  get_card_from_uid, counter_sql, uid_fields,
}
use boltcard.Db.Cards.Counter.{Reached}
use boltcard.Db.Keeps.{
  Preserved, Keeps, Keeps-exec, Keeps-bind, Keeps-if, Keeps-pure, Keeps-raise, Keeps-open_db,
  Keeps-expect_one, keeps_rules,
}
use boltcard.Db.Keeps.Settings.{Keeps-get_setting}
use boltcard.Lnd.Unsent.{unchanged}
use boltcard.Internalapi.Keeps.{Keeps-or_raise, Keeps-or_message}
use boltcard.Db.Hoare.{Reads, Ensures-read, Reads-open_db, Reads-query, ok_inj}
use boltcard.Db.Hoare.Post.{Post, Post-bind, Post-weaken, Post-Ensures, returned_bind}
use boltcard.Db.Hoare.Calls.{Reads-ensure, Ensures-or_message}
use boltcard.Lnurlw.Tap.Accepted.{accept_tap-Accepted}
use boltcard.Lnurlw.Tap.{
  counter_value, set_up_matching, setup_card_record, card_cmac_valid, card_of_tap, ignore,
  or_message, ensure, decrypted, accept_tap, parse_request, get_p_c,
}
use boltcard.Lnurlw.Tap.Fresh.{of_uid, Fresh, fresh, set_up-Fresh}

Post-Keeps :
    {A : Type 0} {k : Preserved} {m : M A} {db : Db}
    → Keeps k m
    → Post db m (λ _ db'. k.Rel db.tables db'.tables)
Post-Keeps {db} h = record { at = λ a e. h.at db }

Reads-get_card_from_uid :
    (now : ℕ) (t : Tables) (uid : Text)
    → Reads now t
        (get_card_from_uid uid)
        (λ c. scan uid_fields (select_row (has_uid uid) t.cards) ≡ ok c)
unfolding get_card_from_uid
Reads-get_card_from_uid now t uid = Ensures-read open_db _ Reads-open_db λ _ _. Reads-query _

same_id : (r : CardRow) (c : Card) → ok (uid_fields r) ≡ ok c → c.card_id ≡ r.card_id
unfolding uid_fields
same_id r c e = let is : uid_fields r ≡ c = ok_inj _ _ e in ap (λ c. c.card_id) (sym is)

selected-Reached :
    (uid : Text) (n : ℕ) (cs : List CardRow) (r : CardRow) (id : ℕ)
    → (count_rows (of_uid uid r.card_id) cs ≡ 0) ⊎ Reached r.card_id n cs
    → select_row (has_uid uid) cs ≡ some r
    → id ≡ r.card_id
    → Reached id n cs
selected-Reached uid n cs r id (inl no_row) selected same = absurd (
    select_row-counted (has_uid uid) (of_uid uid r.card_id) cs r selected
      (ground (arith, select_row-holds (has_uid uid) cs r selected)) no_row)
selected-Reached uid n cs r id (inr reached) selected same = rw same reached

module _ (x : Externals) (uid ctr ba_c : Text) where
  abbrev kept : Preserved
  kept = fresh (encode_to_string uid) (counter_value ctr)

  card_cmac_valid-Fresh : (k2 : Text) → Keeps kept (card_cmac_valid x k2 uid ctr ba_c)
  unfolding card_cmac_valid
  card_cmac_valid-Fresh k2 = search (keeps_rules, Keeps-or_raise)

  update_card_uid_ctr-Fresh :
      (id : ℕ) → Keeps kept (update_card_uid_ctr id (encode_to_string uid) (counter_value ctr))
  unfolding update_card_uid_ctr
  update_card_uid_ctr-Fresh id = Keeps-bind open_db _ Keeps-open_db λ _.
      Keeps-bind _ _ (Keeps-exec _ (set_up-Fresh (encode_to_string uid) (counter_value ctr) id))
        λ count. Keeps-expect_one _ count

  set_up_matching-Fresh : (cards : List Card) → Keeps kept (set_up_matching x uid ctr ba_c cards)
  unfolding set_up_matching
  set_up_matching-Fresh [] = Keeps-pure tt
  set_up_matching-Fresh (card ∷ cards) =
      Keeps-bind _ _ (card_cmac_valid-Fresh card.k2_cmac_key) λ valid.
        Keeps-if valid _ _ (update_card_uid_ctr-Fresh card.card_id) (set_up_matching-Fresh cards)

  get_cards_blank_uid-Fresh : Keeps kept get_cards_blank_uid
  unfolding get_cards_blank_uid
  get_cards_blank_uid-Fresh = search (keeps_rules)

  setup_card_record-Fresh : Keeps kept (ignore (setup_card_record x uid ctr ba_c))
  unfolding setup_card_record
  setup_card_record-Fresh = record {
    at = λ db.
        (Keeps-bind _ _ (Keeps-or_message _ _ get_cards_blank_uid-Fresh) set_up_matching-Fresh).at
          db;
  }

  count-Fresh : Keeps kept (get_card_count_for_uid (encode_to_string uid))
  unfolding get_card_count_for_uid
  count-Fresh = search (keeps_rules)

  found-Reached :
      (db : Db)
      → Fresh (encode_to_string uid) (counter_value ctr) db.tables
      → Post db
          (or_message (get_card_from_uid (encode_to_string uid)) "card not found for uid")
          (λ c db'. Reached c.card_id (counter_value ctr) db'.tables.cards)
  found-Reached db h =
      Post-weaken _
        (λ c db' (_, (same, found)).
          rw same (
            row_reached c (select_row (has_uid (encode_to_string uid)) db.tables.cards) refl found))
        (Post-Ensures _ (
          Ensures-or_message (get_card_from_uid (encode_to_string uid)) "card not found for uid"
            (Reads-get_card_from_uid db.now db.tables (encode_to_string uid))))
    where
      row_reached :
          (c : Card) (o : Option CardRow)
          → select_row (has_uid (encode_to_string uid)) db.tables.cards ≡ o
          → scan uid_fields o ≡ ok c
          → Reached c.card_id (counter_value ctr) db.tables.cards
      row_reached c none selected is = absurd (cc)
      row_reached c (some r) selected is =
          selected-Reached _ _ _ r c.card_id (h r.card_id) selected (same_id r c is)

  -- Whether it was set up or not, the card that the tap finds has reached the counter of the tap.
  card_of_tap-Reached :
      (db : Db)
      → Fresh (encode_to_string uid) (counter_value ctr) db.tables
      → Post db
          (card_of_tap x uid ctr ba_c)
          (λ c db'. Reached c.card_id (counter_value ctr) db'.tables.cards)
  unfolding card_of_tap fresh
  card_of_tap-Reached db h =
      Post-bind
        (or_message (get_card_count_for_uid (encode_to_string uid))
          "could not get card count for uid")
        _ (Post-Keeps (Keeps-or_message _ _ count-Fresh))
        λ n db1 h1.
          Post-bind (if n == 0 then ignore (setup_card_record x uid ctr ba_c) else pure tt) _
            (Post-Keeps (Keeps-if (n == 0) _ _ setup_card_record-Fresh (Keeps-pure tt)))
            λ _ db2 h2.
              Post-bind (ensure (not (ltb 1 n)) (message "more than one card found for uid")) _
                (Post-Ensures _ (Reads-ensure _ _))
                λ _ db3 (_, (same, _)). found-Reached db3 (rw same (h2 (h1 h)))

Keeps-test : {k : Preserved} (b : Bool) (e : Error) → Keeps k (ensure b e)
Keeps-test true e = Keeps-pure tt
Keeps-test false e = Keeps-raise e

decrypted-unchanged : (x : Externals) (p c : Text) → Keeps unchanged (decrypted x p c)
unfolding decrypted
decrypted-unchanged x p c =
    search (keeps_rules, Keeps-or_raise, Keeps-test, Keeps-get_setting) depth 60

-- The counter of the tap does not go past one that the card has reached.
not_accepted :
    (x : Externals) (uid ctr ba_c : Text) (c : Card) (id : ℕ) (db : Db)
    → Reached c.card_id (counter_value ctr) db.tables.cards
    → (accept_tap x uid ctr ba_c c db).0 ≢ ok id
unfolding counter_sql update_cards
not_accepted x uid ctr ba_c c id db reached e =
    let counted = (accept_tap-Accepted x uid ctr ba_c c id db e).1.counted in
    ground (arith, counted, reached)

no_live : (uid : Text) (n : ℕ) (t : Tables) → count_rows (has_uid uid) t.cards ≡ 0 → Fresh uid n t
no_live uid n t none_of id =
    let fewer : count_rows (of_uid uid id) t.cards ≤ count_rows (has_uid uid) t.cards =
      count_rows-le (of_uid uid id) (has_uid uid) t.cards (λ c h. ground (arith, h)) in
    inl (omega (arith, fewer, none_of))

-- The parameters of a tap.
abbrev pub tap_params : Request → Text × Text
tap_params req = get_p_c req "p" "c"

abbrev pub uid_of : Text → Text
uid_of dec_p = take 7 (drop 1 dec_p)

-- The tap that sets a card up is not accepted itself. Whatever the faults of the database, a tap whose
-- UID no live card has is refused: where a card is set up for it, the counter of the tap is stored
-- first, and then does not go forward.
pub set_up_tap_refused :
    (x : Externals) (req : Request) (dec_p ba_c : Text) (id : ℕ) (db : Db)
    → (decrypted x (tap_params req).0 (tap_params req).1 db).0 ≡ ok (dec_p, ba_c)
    → count_rows (has_uid (encode_to_string (uid_of dec_p))) db.tables.cards ≡ 0
    → (parse_request x req db).0 ≢ ok id
unfolding parse_request
set_up_tap_refused x req dec_p ba_c id db is_tap no_card accepted =
    let read = decrypted x (tap_params req).0 (tap_params req).1 in
    let uid : Text = uid_of dec_p in
    let ctr : Text = take 3 (drop 8 dec_p) in
    let (b, got, rest) = returned_bind read _ db id accepted in
    let of_tap : ((card_of_tap x uid ctr ba_c >>= accept_tap x uid ctr ba_c) (read db).1).0
        ≡ ok id =
      subst
        (λ b.
          ((card_of_tap x (uid_of b.0) (take 3 (drop 8 b.0)) b.1
              >>= accept_tap x (uid_of b.0) (take 3 (drop 8 b.0)) b.1)
            (read db).1).0
          ≡ ok id)
        (ok_inj _ _ (sym got ∙ is_tap)) rest in
    let (c, found, last) = returned_bind (card_of_tap x uid ctr ba_c) _ (read db).1 id of_tap in
    let same : (read db).1.tables ≡ db.tables =
      (decrypted-unchanged x (tap_params req).0 (tap_params req).1).at db in
    not_accepted x uid ctr ba_c c id _
      ((card_of_tap-Reached x uid ctr ba_c (read db).1 (
          no_live (encode_to_string uid) (counter_value ctr) (read db).1.tables
            (rw same no_card))).at
        c found)
      last
