-- ===== src/Lnurlw/Tap/Runs.antt =====
-- A tap is a history of calls.
use boltcard.Prelude.{List, [], ◌∷◌}
use boltcard.Text.{Text}
use boltcard.Externals.{Externals}
use boltcard.Http.{Request}
use boltcard.Db.Schema.{Card}
use boltcard.Db.Runs.{Runs, Runs-bind, Runs-if, Runs-pure, Runs-or_message, runs_rules}
use boltcard.Db.Runs.Calls.{call_runs, get_cards_blank_uid-Runs, update_card_uid_ctr-Runs}
use boltcard.Lnurlw.Tap.{
  card_cmac_valid, set_up_matching, setup_card_record, decrypted, card_of_tap, accept_tap,
  parse_request,
}

card_cmac_valid-Runs :
    (x : Externals) (k2 uid ctr cmac : Text) → Runs (card_cmac_valid x k2 uid ctr cmac)
unfolding card_cmac_valid
card_cmac_valid-Runs x k2 uid ctr cmac = search (runs_rules) depth 20

set_up_matching-Runs :
    (x : Externals) (uid ctr cmac : Text) (cards : List Card)
    → Runs (set_up_matching x uid ctr cmac cards)
unfolding set_up_matching
set_up_matching-Runs x uid ctr cmac [] = Runs-pure tt
set_up_matching-Runs x uid ctr cmac (card ∷ cards) =
    Runs-bind _ _ (card_cmac_valid-Runs x _ uid ctr cmac) λ valid.
      Runs-if valid _ _ (update_card_uid_ctr-Runs _ _ _) (set_up_matching-Runs x uid ctr cmac cards)

setup_card_record-Runs :
    (x : Externals) (uid ctr cmac : Text) → Runs (setup_card_record x uid ctr cmac)
unfolding setup_card_record
setup_card_record-Runs x uid ctr cmac =
    Runs-bind _ _ (Runs-or_message _ _ get_cards_blank_uid-Runs)
      (set_up_matching-Runs x uid ctr cmac)

decrypted-Runs : (x : Externals) (p c : Text) → Runs (decrypted x p c)
unfolding decrypted
decrypted-Runs x p c = search (runs_rules, call_runs) depth 60

card_of_tap-Runs : (x : Externals) (uid ctr ba_c : Text) → Runs (card_of_tap x uid ctr ba_c)
unfolding card_of_tap
card_of_tap-Runs x uid ctr ba_c = search (runs_rules, call_runs, setup_card_record-Runs) depth 60

accept_tap-Runs :
    (x : Externals) (uid ctr ba_c : Text) (c : Card) → Runs (accept_tap x uid ctr ba_c c)
unfolding accept_tap
accept_tap-Runs x uid ctr ba_c c = search (runs_rules, call_runs, card_cmac_valid-Runs) depth 60

pub parse_request-Runs : (x : Externals) (r : Request) → Runs (parse_request x r)
unfolding parse_request
parse_request-Runs x r =
    search (runs_rules, decrypted-Runs, card_of_tap-Runs, accept_tap-Runs) depth 60
