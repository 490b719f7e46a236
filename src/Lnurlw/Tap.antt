-- ===== src/Lnurlw/Tap.antt =====
-- `parse_request` of lnurlw/lnurlw_request.go: a tap's parameters `p` and `c` are decrypted, the
-- card is found or set up, and its CMAC and counter are checked.
pub mod Accepted
pub mod Fresh
pub mod Runs
pub mod SetUp
use boltcard.Prelude.{
  ℕ, ◌+◌, ◌*◌, Bool, true, false, not, ◌||◌, ◌++◌, List, [], ◌∷◌, Option, none, some, String, ltb,
  ◌==◌, if◌then◌else◌, length, take, drop, get_or,
}
use boltcard.Text.{Text, text_eq}
use boltcard.Text.Hex.{decode_string, encode_to_string}
use boltcard.Externals.{Externals}
use boltcard.Crypto.{aes_decrypt, aes_cmac}
use boltcard.Http.{Request, get_param}
use boltcard.Db.Schema.{Card, Error, failed, message}
use boltcard.Db.Monad.{Result, ok, err, M, pure, raise, ◌>>=◌, ◌>>◌}
use boltcard.Db.Settings.{get_setting}
use boltcard.Db.Cards.{
  get_card_count_for_uid, get_cards_blank_uid, update_card_uid_ctr, get_card_from_uid,
  check_and_update_counter,
}

abbrev pub or_raise : {A : Type 0} → Option A → Error → M A
or_raise none e = raise e
or_raise (some a) e = pure a

-- `if !test { return errors.New(...) }`
abbrev pub ensure : Bool → Error → M (Unit {0})
ensure true e = pure tt
ensure false e = raise e

abbrev pub relabel : {A : Type 0} → Result A → String → Result A
relabel (ok a) text = ok a
relabel (err e) text = err (message text)

-- The error of an action, replaced.
abbrev pub or_message : {A : Type 0} → M A → String → M A
or_message m text db = (relabel (m db).0 text, (m db).1)

-- Both parameters, or neither.
unfoldable pub get_p_c : Request → String → String → Text × Text
unfolding text_eq get_param
get_p_c req p_name c_name =
    if text_eq (get_param p_name req) [] || text_eq (get_param c_name req) []
    then ([], [])
    else (get_param p_name req, get_param c_name req)

-- The bytes that the card signs: a fixed prefix, the 7 bytes of the UID, the 3 of the counter.
unfoldable pub sv2 : Text → Text → Text
sv2 uid ctr = 0x3c ∷ 0xc3 ∷ 0x00 ∷ 0x01 ∷ 0x00 ∷ 0x80 ∷ (take 7 uid ++ take 3 ctr)

unfoldable pub check_cmac : Externals → Text → Text → Text → Text → Option Bool
unfolding sv2
check_cmac x uid ctr k2_cmac_key cmac = aes_cmac x k2_cmac_key (sv2 uid ctr) cmac

-- The counter of a tap is little-endian. The bytes do not overlap, so `|` is a sum.
unfoldable pub counter_value : Text → ℕ
counter_value ctr = get_or ctr 2 0 * 65536 + get_or ctr 1 0 * 256 + get_or ctr 0 0

-- A card's key, decoded, against the tap's CMAC.
unfoldable pub card_cmac_valid : Externals → Text → Text → Text → Text → M Bool
card_cmac_valid x k2_hex uid ctr cmac = do
  k2_cmac_key ← or_raise (decode_string k2_hex) failed
  or_raise (check_cmac x uid ctr k2_cmac_key cmac) failed

-- The first card with a blank UID whose key gives the CMAC takes the UID and the counter.
set_up_matching : Externals → Text → Text → Text → List Card → M (Unit {0})
set_up_matching x uid ctr cmac [] = pure tt
set_up_matching x uid ctr cmac (card ∷ cards) =
    let rest = set_up_matching x uid ctr cmac cards in
    card_cmac_valid x card.k2_cmac_key uid ctr cmac >>= λ valid.
    if valid
    then update_card_uid_ctr card.card_id (encode_to_string uid) (counter_value ctr)
    else rest

unfoldable pub setup_card_record : Externals → Text → Text → Text → M (Unit {0})
unfolding set_up_matching
setup_card_record x uid ctr cmac = do
  cards ← or_message get_cards_blank_uid "db.Get_cards_blank_uid errored"
  set_up_matching x uid ctr cmac cards

-- A call whose error is not looked at.
abbrev pub ignore : {A : Type 0} → M A → M (Unit {0})
ignore m db = (ok tt, (m db).1)

-- The block that `p` decrypts to, and the CMAC in `c`.
unfoldable pub decrypted : Externals → Text → Text → M (Text × Text)
decrypted x param_p param_c = do
  ba_p ← or_raise (decode_string param_p) (message "p parameter not valid hex")
  ba_c ← or_raise (decode_string param_c) (message "c parameter not valid hex")
  ensure (length ba_p == 16) (message "p parameter length not valid")
  ensure (length ba_c == 8) (message "c parameter length not valid")
  aes_decrypt_key ← get_setting "AES_DECRYPT_KEY"
  key_sdm_file_read ← or_raise (decode_string aes_decrypt_key) failed
  dec_p ← or_raise (aes_decrypt x key_sdm_file_read ba_p) failed
  ensure (get_or dec_p 0 0 == 0xc7) (message "decrypted data not starting with 0xC7")
  pure (dec_p, ba_c)

-- The card with the UID of the tap, which is set up first if there is none.
card_of_tap : Externals → Text → Text → Text → M Card
card_of_tap x uid ctr ba_c = do
  card_count ←
      or_message (get_card_count_for_uid (encode_to_string uid)) "could not get card count for uid"
  if card_count == 0 then ignore (setup_card_record x uid ctr ba_c) else pure tt
  ensure (not (ltb 1 card_count)) (message "more than one card found for uid")
  or_message (get_card_from_uid (encode_to_string uid)) "card not found for uid"

-- The checks on the card of a tap. The answer is its id.
unfoldable pub accept_tap : Externals → Text → Text → Text → Card → M ℕ
accept_tap x uid ctr ba_c c = do
  ensure (c.lnurlw_enable == b'Y') (message "card lnurlw enable is not set to Y")
  cmac_valid ← card_cmac_valid x c.k2_cmac_key uid ctr ba_c
  ensure cmac_valid (message "cmac incorrect")
  counter_ok ← check_and_update_counter c.card_id (counter_value ctr)
  ensure counter_ok (message "counter not increasing")
  pure c.card_id

unfoldable pub parse_request : Externals → Request → M ℕ
unfolding decrypted card_of_tap get_p_c accept_tap
parse_request x req = do
  let (param_p, param_c) = get_p_c req "p" "c"
  (dec_p, ba_c) ← decrypted x param_p param_c
  let uid = take 7 (drop 1 dec_p)
  let ctr = take 3 (drop 8 dec_p)
  c ← card_of_tap x uid ctr ba_c
  accept_tap x uid ctr ba_c c
