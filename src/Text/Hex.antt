-- ===== src/Text/Hex.antt =====
-- encoding/hex: `EncodeToString` and `DecodeString`.
use boltcard.Prelude.{
  ℕ, ◌+◌, ◌-◌, ◌*◌, ◌/◌, ◌%◌, ◌<◌, ◌≤◌, ◌≡◌, refl, ◌&&◌, [], ◌∷◌, Option, none, some, arith, leb,
  ltb, if◌then◌else◌, length, All,
}
use boltcard.Text.{Text}

unfoldable pub hex_digit : ℕ → ℕ
hex_digit n = if ltb n 10 then b'0' + n else b'a' + (n - 10)

unfoldable pub encode_to_string : Text → Text
unfolding hex_digit
encode_to_string [] = []
encode_to_string (b ∷ bs) = hex_digit (b / 16) ∷ hex_digit (b % 16) ∷ encode_to_string bs

unfoldable pub hex_value : ℕ → Option ℕ
hex_value c =
    if leb b'0' c && leb c b'9'
    then some (c - b'0')
    else if leb b'a' c && leb c b'f'
    then some (c - b'a' + 10)
    else if leb b'A' c && leb c b'F'
    then some (c - b'A' + 10)
    else none

join : Option ℕ → Option ℕ → Option Text → Option Text
join (some h) (some l) (some bs) = some ((h * 16 + l) ∷ bs)
join _ _ _ = none

-- `none` for an odd length or a byte that is no hexadecimal digit.
unfoldable pub decode_string : Text → Option Text
unfolding hex_value join
decode_string [] = some []
decode_string (c ∷ []) = none
decode_string (c ∷ d ∷ s) = join (hex_value c) (hex_value d) (decode_string s)

pub hex_value-hex_digit : (n : ℕ) → n < 16 → hex_value (hex_digit n) ≡ some n
unfolding hex_value hex_digit
hex_value-hex_digit n h = ground arith

abbrev pub IsBytes : Text → Type 0
IsBytes = All (λ b. b < 256)

-- Decoding what was encoded gives the bytes back.
pub decode_string-encode_to_string :
    (bs : Text) → IsBytes bs → decode_string (encode_to_string bs) ≡ some bs
unfolding decode_string encode_to_string
decode_string-encode_to_string [] h = refl
decode_string-encode_to_string (b ∷ bs) h = ground (
  arith,
  hex_value-hex_digit (b / 16),
  hex_value-hex_digit (b % 16),
  decode_string-encode_to_string bs h.1,
)

pub length-encode_to_string : (bs : Text) → length (encode_to_string bs) ≡ 2 * length bs
unfolding encode_to_string
length-encode_to_string [] = refl
length-encode_to_string (b ∷ bs) = omega (arith, length-encode_to_string bs)

hex_digit-ge : (n : ℕ) → b'0' ≤ hex_digit n
unfolding hex_digit
hex_digit-ge n = ground arith

-- Every byte written is a digit or a letter: none is a blank.
pub encode_to_string-All-ge : (bs : Text) → All (λ c. b'0' ≤ c) (encode_to_string bs)
unfolding encode_to_string
encode_to_string-All-ge [] = tt
encode_to_string-All-ge (b ∷ bs) =
    (hex_digit-ge (b / 16), (hex_digit-ge (b % 16), encode_to_string-All-ge bs))
