-- ===== src/Text/Json.antt =====
-- encoding/json: how `Marshal` writes a string, as of Go 1.22, and a reader of such strings.
use mathlib.Core.List.{append_assoc}
use boltcard.Prelude.{
  ℕ, zero, suc, ◌+◌, ◌*◌, ◌/◌, ◌%◌, ◌<◌, ◌≡◌, ◌≢◌, refl, ◌++◌, Bool, true, false, not, ◌&&◌, ◌||◌,
  [], ◌∷◌, Option, none, some, ◌==◌, ltb, leb, arith, if◌then◌else◌, ◌∙◌, ap, Bool-cases, inl, inr,
}
use boltcard.Text.{Text, codes}
use boltcard.Text.Hex.{hex_digit, hex_value, hex_value-hex_digit}
use boltcard.Text.Runes.{first_rune, first_rune_low, rune_error, IsAscii}

abbrev backslash : ℕ
backslash = 0x5c

abbrev quote : ℕ
quote = 0x22

-- \b \t \n \f \r, and 0 for a byte with no short form.
short_form : ℕ → ℕ
short_form c =
    if c == 8
    then b'b'
    else if c == 9
    then b't'
    else if c == 10
    then b'n'
    else if c == 12
    then b'f'
    else if c == 13
    then b'r'
    else 0

-- The bytes that are not in `htmlSafeSet` are escaped.
unfoldable pub escape_byte : ℕ → Text
unfolding short_form hex_digit
escape_byte c =
    if c == quote || c == backslash
    then backslash ∷ c ∷ []
    else if not (short_form c == 0)
    then backslash ∷ short_form c ∷ []
    else if ltb c 0x20 || c == b'<' || c == b'>' || c == b'&'
    then backslash ∷ b'u' ∷ b'0' ∷ b'0' ∷ hex_digit (c / 16) ∷ hex_digit (c % 16) ∷ []
    else c ∷ []

-- What is written for a rune that starts with `b` and takes `more` bytes behind it: the text, and
-- whether the bytes behind `b` are kept.
escape_rune : ℕ → ℕ → ℕ → Text × Bool
unfolding escape_byte
escape_rune b rune more =
    if◌then◌else◌ {A = Text × Bool} (ltb b 0x80) (escape_byte b, true)
      (if◌then◌else◌ {A = Text × Bool} (rune == rune_error && more == 0) (codes "\\ufffd", true)
        (if◌then◌else◌ {A = Text × Bool} (rune == 0x2028) (codes "\\u2028", false)
          (if◌then◌else◌ {A = Text × Bool} (rune == 0x2029) (codes "\\u2029", false)
            (b ∷ [], true))))

-- The next `skip` bytes belong to the rune before.
unfoldable pub escaped : ℕ → Bool → Text → Text
unfolding escape_rune first_rune
escaped skip kept [] = []
escaped zero kept (b ∷ s) =
    let (rune, more) = first_rune b s in
    let (written, keeps) = escape_rune b rune more in written ++ escaped more keeps s
escaped (suc skip) true (b ∷ s) = b ∷ escaped skip true s
escaped (suc skip) false (b ∷ s) = escaped skip false s

unfoldable pub json_string : Text → Text
unfolding escaped
json_string s = quote ∷ escaped 0 true s ++ quote ∷ []

-- Where a reader of a JSON string is: between characters, behind a backslash, behind `\u` and some
-- digits, or behind the closing quote.
pub data Reader : Type 0 where
  plain escape closed : Reader
  digits : ℕ → ℕ → Reader

-- The character of a short form, and 0 for none.
long_form : ℕ → ℕ
long_form c =
    if c == quote || c == backslash || c == b'/'
    then c
    else if c == b'b'
    then 8
    else if c == b't'
    then 9
    else if c == b'n'
    then 10
    else if c == b'f'
    then 12
    else if c == b'r'
    then 13
    else 0

-- The next digit of `\u`. The reader is one of ASCII characters.
on_digit : ℕ → ℕ → Option ℕ → Option (Reader × Text)
on_digit count value none = none
on_digit count value (some d) =
    let next = value * 16 + d in
    if◌then◌else◌ {A = Option (Reader × Text)} (count == 3)
      (if◌then◌else◌ {A = Option (Reader × Text)} (ltb next 0x80) (some (plain, next ∷ [])) none)
      (some (digits (suc count) next, []))

on_byte : Reader → ℕ → Option (Reader × Text)
unfolding on_digit long_form
on_byte plain c = if◌then◌else◌ {A = Option (Reader × Text)} (c == quote) (some (closed, [])) (
    if◌then◌else◌ {A = Option (Reader × Text)} (c == backslash) (some (escape, [])) (
      if◌then◌else◌ {A = Option (Reader × Text)} (ltb c 0x20 || leb 0x80 c) none
        (some (plain, c ∷ []))))
on_byte escape c = if◌then◌else◌ {A = Option (Reader × Text)} (c == b'u') (some (digits 0 0, [])) (
    if◌then◌else◌ {A = Option (Reader × Text)} (long_form c == 0) none
      (some (plain, long_form c ∷ [])))
on_byte (digits count value) c = on_digit count value (hex_value c)
on_byte closed c = some (closed, [])

prepend : Text → Option Text → Option Text
prepend out none = none
prepend out (some s) = some (out ++ s)

on_next : Option (Reader × Text) → (Reader → Option Text) → Option Text
unfolding prepend
on_next none rest = none
on_next (some (r, out)) rest = prepend out (rest r)

read : Reader → Text → Option Text
unfolding on_byte on_next
read closed s = some []
read r [] = none
read r (c ∷ s) = on_next (on_byte r c) λ r'. read r' s

-- A JSON string at the start of a text.
unfoldable pub read_json_string : Text → Option Text
unfolding read
read_json_string [] = none
read_json_string (c ∷ s) = let rest = read plain s in if c == quote then rest else none

prepend_nil : (o : Option Text) → prepend [] o ≡ o
unfolding prepend
prepend_nil none = refl
prepend_nil (some s) = refl

-- A short form that stands for `c`.
read-escape :
    (c d : ℕ) (s : Text)
    → on_byte escape d ≡ some (plain, c ∷ [])
    → read plain (backslash ∷ d ∷ s) ≡ prepend (c ∷ []) (read plain s)
unfolding read
read-escape c d s e = prepend_nil (read escape (d ∷ s)) ∙ ap (λ o. on_next o λ r. read r s) e

long_quoted :
    (c : ℕ) → (c == quote || c == backslash) ≡ true → on_byte escape c ≡ some (plain, c ∷ [])
unfolding on_byte long_form
long_quoted c e = ground (arith, e)

long_short : (c : ℕ) → short_form c ≢ 0 → on_byte escape (short_form c) ≡ some (plain, c ∷ [])
unfolding on_byte long_form short_form
long_short c e = ground (arith, e)

read-digits :
    (c : ℕ) (s : Text)
    → c < 0x80
    → read plain (backslash ∷ b'u' ∷ b'0' ∷ b'0' ∷ hex_digit (c / 16) ∷ hex_digit (c % 16) ∷ s)
      ≡ prepend (c ∷ []) (read plain s)
unfolding read on_byte on_digit prepend hex_value
read-digits c s h =
    rw (hex_value-hex_digit (c / 16) (omega (arith, h)), hex_value-hex_digit (c % 16) (omega arith))
      (ground (arith, h))

plain_byte :
    (c : ℕ)
    → c < 0x80
    → (c == quote || c == backslash) ≡ false
    → ltb c 0x20 ≡ false
    → on_byte plain c ≡ some (plain, c ∷ [])
unfolding on_byte
plain_byte c h e n = ground (arith, e, n)

read-plain :
    (c : ℕ) (s : Text)
    → on_byte plain c ≡ some (plain, c ∷ [])
    → read plain (c ∷ s) ≡ prepend (c ∷ []) (read plain s)
unfolding read
read-plain c s e = ap (λ o. on_next o λ r. read r s) e

read-escape_byte :
    (c : ℕ) (s : Text)
    → c < 0x80
    → read plain (escape_byte c ++ s) ≡ prepend (c ∷ []) (read plain s)
unfolding escape_byte
read-escape_byte c s h = elim (Bool-cases (c == quote || c == backslash)) [
  | inl e ↦ rw (e) (read-escape c c s (long_quoted c e))
  | inr e ↦ elim (Bool-cases (short_form c == 0)) [
    | inr n ↦ rw (e, n) (read-escape c (short_form c) s (long_short c λ z. ground (arith, n, z)))
    | inl z ↦ elim (Bool-cases (ltb c 0x20 || c == b'<' || c == b'>' || c == b'&')) [
      | inl d ↦ rw (e, z, d) (read-digits c s h)
      | inr d ↦ rw (e, z, d) (read-plain c s (plain_byte c h e (ground (arith, d))))
    ]
  ]
]

escaped-ascii :
    (c : ℕ) (s : Text) → c < 0x80 → escaped 0 true (c ∷ s) ≡ escape_byte c ++ escaped 0 true s
unfolding escaped escape_rune first_rune
escaped-ascii c s h =
    let small : ltb c 0x80 ≡ true = ground (arith, h) in rw (first_rune_low c s h, small) refl

read-escaped : (s rest : Text) → IsAscii s → read plain (escaped 0 true s ++ quote ∷ rest) ≡ some s
read-escaped [] rest h = unfold escaped read in refl
read-escaped (c ∷ s) rest h =
    rw
      (
        escaped-ascii c s h.0,
        append_assoc (escape_byte c) (escaped 0 true s) (quote ∷ rest),
        read-escape_byte c (escaped 0 true s ++ quote ∷ rest) h.0,
        read-escaped s rest h.1,
      )
      (unfold prepend in refl)

-- The reader reads what is written for an ASCII string.
pub read_json_string-json_string :
    (s rest : Text) → IsAscii s → read_json_string (json_string s ++ rest) ≡ some s
unfolding read_json_string json_string
read_json_string-json_string s rest h =
    rw (append_assoc (escaped 0 true s) (quote ∷ []) rest) (read-escaped s rest h)
