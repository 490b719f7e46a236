-- ===== src/Internalapi/Validate.antt =====
-- internalapi/validate.go: card names, PINs and limits.
use mathlib.Core.Path.{subst}
use boltcard.Prelude.{
  ℕ, ◌≤◌, ◌≡◌, ◌↔◌, refl, Bool, true, false, not, ◌&&◌, ◌||◌, List, [], ◌∷◌, ltb, leb, ◌==◌, arith,
  All, length, if◌then◌else◌,
}
use boltcard.Prelude.Int.{ℤ, pos, ltb_ℤ}
use boltcard.Text.{Text, text_eq}
use boltcard.Text.Runes.{runes, IsAscii, runes_ascii, runes_low}

-- the card_name column is VARCHAR(100)
abbrev pub max_card_name_length : ℕ
max_card_name_length = 100

-- the pin_number column is CHAR(4)
abbrev pub pin_length : ℕ
pin_length = 4

-- `unicode.IsPrint`: Latin-1 is written out, and `is_print` is the Unicode table beyond it.
abbrev pub printable : (ℕ → Bool) → ℕ → Bool
printable is_print r =
    if ltb r 0x100
    then (leb 0x20 r && leb r 0x7e) || (leb 0xa1 r && not (r == 0xad))
    else is_print r

unfoldable pub all_printable : (ℕ → Bool) → List ℕ → Bool
all_printable is_print [] = true
all_printable is_print (r ∷ rs) = printable is_print r && all_printable is_print rs

unfoldable pub card_name_valid : (ℕ → Bool) → Text → Bool
unfolding all_printable
card_name_valid is_print card_name =
    if text_eq card_name [] || ltb max_card_name_length (length card_name)
    then false
    else all_printable is_print (runes card_name)

unfoldable pub all_digits : List ℕ → Bool
all_digits [] = true
all_digits (r ∷ rs) = not (ltb r b'0' || ltb b'9' r) && all_digits rs

unfoldable pub pin_valid : Text → Bool
unfolding all_digits
pin_valid pin_number =
    if not (length pin_number == pin_length) then false else all_digits (runes pin_number)

unfoldable pub limit_valid : ℤ → Bool
limit_valid sats = not (ltb_ℤ sats (pos 0))

abbrev pub IsDigits : Text → Type 0
IsDigits = All (λ c. (b'0' ≤ c) × (c ≤ b'9'))

digits-IsAscii : (s : Text) → IsDigits s → IsAscii s
digits-IsAscii [] h = tt
digits-IsAscii (c ∷ s) h = (omega (arith, h.0), digits-IsAscii s h.1)

all_digits_iff : (rs : List ℕ) → (all_digits rs ≡ true) ↔ IsDigits rs
unfolding all_digits
all_digits_iff [] = (λ e. tt, λ h. refl)
all_digits_iff (r ∷ rs) = ground (arith, all_digits_iff rs)

-- A PIN is valid exactly where it is four bytes, each a decimal digit.
pub pin_valid_iff : (pin : Text) → (pin_valid pin ≡ true) ↔ ((length pin ≡ 4) × IsDigits pin)
unfolding pin_valid
pin_valid_iff pin = (valid, λ (four, digits). back four digits)
  where
    valid : pin_valid pin ≡ true → (length pin ≡ 4) × IsDigits pin
    valid e =
        let low : IsDigits (runes pin) = (all_digits_iff (runes pin)).0 (ground arith) in
        (ground arith, subst IsDigits (runes_low pin (digits-IsAscii (runes pin) low)) low)

    back : length pin ≡ 4 → IsDigits pin → pin_valid pin ≡ true
    back four digits =
        rw (four, runes_ascii pin (digits-IsAscii pin digits), (all_digits_iff pin).1 digits) refl
