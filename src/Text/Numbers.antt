-- ===== src/Text/Numbers.antt =====
-- strconv: `Atoi` and `ParseInt(s, 10, 64)`, and `ParseBool`; the wrap-around of a 64-bit int.
use boltcard.Prelude.{
  ℕ, zero, suc, ◌+◌, ◌-◌, ◌*◌, ◌/◌, ◌%◌, ◌^◌, ◌≤◌, arith, ◌≡◌, refl, Bool, true, false, ◌&&◌, ◌||◌,
  List, [], ◌∷◌, Option, none, some, ◌∙◌, leb, ltb, ◌==◌, if◌then◌else◌,
}
use boltcard.Prelude.Int.{ℤ, pos, negsuc, sub_ℕ, pos_part, neg_part}
use boltcard.Text.{Text, codes, text_eq}

unfoldable pub is_digit : ℕ → Bool
is_digit c = leb b'0' c && leb c b'9'

unfoldable pub digits : ℕ → Text → Option ℕ
unfolding is_digit
digits n [] = some n
digits n (c ∷ s) = let rest = digits (n * 10 + (c - b'0')) s in if is_digit c then rest else none

-- At least one digit.
unfoldable pub magnitude : Text → Option ℕ
unfolding digits
magnitude [] = none
magnitude (c ∷ s) = digits 0 (c ∷ s)

unfoldable pub in_int64 : ℤ → Option ℤ
in_int64 n = if leb (pos_part n) (2 ^ 63 - 1) && leb (neg_part n) (2 ^ 63) then some n else none

unfoldable pub positive : Option ℕ → Option ℤ
unfolding in_int64
positive none = none
positive (some n) = in_int64 (pos n)

unfoldable pub negative : Option ℕ → Option ℤ
unfolding in_int64
negative none = none
negative (some n) = in_int64 (sub_ℕ 0 n)

-- `none` for what is no decimal integer or does not fit 64 bits.
unfoldable pub atoi : Text → Option ℤ
unfolding magnitude positive negative
atoi [] = none
atoi (c ∷ s) =
    if c == b'-'
    then negative (magnitude s)
    else if c == b'+'
    then positive (magnitude s)
    else positive (magnitude (c ∷ s))

-- The decimal digits of a number, in front of a text. There is fuel enough for a digit each round.
unfoldable pub written : ℕ → ℕ → Text → Text
written zero n s = (b'0' + n % 10) ∷ s
written (suc fuel) n s = elim (ltb n 10) [
  | true ↦ (b'0' + n) ∷ s
  | false ↦ written fuel (n / 10) ((b'0' + n % 10) ∷ s)
]

-- `strconv.Itoa`
unfoldable pub itoa : ℤ → Text
unfolding written
itoa (pos n) = written n n []
itoa (negsuc n) = b'-' ∷ written (suc n) (suc n) []

unfoldable pub one_of : Text → List Text → Bool
unfolding text_eq
one_of s [] = false
one_of s (t ∷ ts) = text_eq s t || one_of s ts

unfoldable pub parse_bool : Text → Option Bool
unfolding one_of
parse_bool s =
    if one_of s
      (codes "1" ∷ codes "t" ∷ codes "T" ∷ codes "TRUE" ∷ codes "true" ∷ codes "True" ∷ [])
    then some true
    else if one_of s
        (codes "0" ∷ codes "f" ∷ codes "F" ∷ codes "FALSE" ∷ codes "false" ∷ codes "False" ∷ [])
    then some false
    else none

-- The 64-bit pattern of an integer, read back as a signed one.
signed : ℕ → ℤ
signed n = if ltb n (2 ^ 63) then pos n else sub_ℕ n (2 ^ 64)

unfoldable pub wrap_int64 : ℤ → ℤ
unfolding signed
wrap_int64 (pos n) = signed (n % 2 ^ 64)
wrap_int64 (negsuc n) = signed (2 ^ 64 - 1 - n % 2 ^ 64)

reads_numbers :
    (atoi (codes "-120") ≡ some (negsuc 119))
    × (atoi (codes "9223372036854775808") ≡ none)
    × (atoi (codes "1x") ≡ none)
unfolding atoi
reads_numbers = (refl, refl, refl)

digits-written : (fuel n : ℕ) (s : Text) → n ≤ fuel → digits 0 (written fuel n s) ≡ digits n s
unfolding digits written is_digit
digits-written zero n s h = ground arith
digits-written (suc fuel) n s h =
    by_size (ltb n 10) refl (digits-written fuel (n / 10) ((b'0' + n % 10) ∷ s))
  where
    by_size :
        (b : Bool)
        → ltb n 10 ≡ b
        → (n / 10 ≤ fuel
            → digits 0 (written fuel (n / 10) ((b'0' + n % 10) ∷ s))
              ≡ digits (n / 10) ((b'0' + n % 10) ∷ s))
        → digits 0
            (elim b [ true ↦ (b'0' + n) ∷ s | false ↦ written fuel (n / 10) ((b'0' + n % 10) ∷ s) ])
          ≡ digits n s
    by_size true e rec = ground arith
    by_size false e rec = rw (rec (ground arith)) (ground arith)

record DigitFirst (t : Text) : Type 0 where
  first : ℕ
  rest : Text
  is_text : t ≡ first ∷ rest
  is_first : is_digit first ≡ true

written-DigitFirst : (fuel n : ℕ) (s : Text) → DigitFirst (written fuel n s)
unfolding written is_digit
written-DigitFirst zero n s = record {
  first = b'0' + n % 10;
  rest = s;
  is_text = refl;
  is_first = ground arith;
}
written-DigitFirst (suc fuel) n s =
    by_size (ltb n 10) refl (written-DigitFirst fuel (n / 10) ((b'0' + n % 10) ∷ s))
  where
    by_size :
        (b : Bool)
        → ltb n 10 ≡ b
        → DigitFirst (written fuel (n / 10) ((b'0' + n % 10) ∷ s))
        → DigitFirst
            (elim b [ true ↦ (b'0' + n) ∷ s | false ↦ written fuel (n / 10) ((b'0' + n % 10) ∷ s) ])
    by_size true e rec = record {
      first = b'0' + n;
      rest = s;
      is_text = refl;
      is_first = ground arith;
    }
    by_size false e rec = rec

magnitude-digits : (t : Text) → DigitFirst t → magnitude t ≡ digits 0 t
unfolding magnitude
magnitude-digits [] d = absurd (cc)
magnitude-digits (c ∷ s) d = refl

magnitude-written : (n : ℕ) → magnitude (written n n []) ≡ some n
unfolding digits
magnitude-written n =
    magnitude-digits (written n n []) (written-DigitFirst n n [])
    ∙ digits-written n n [] (omega arith)

atoi-digits : (t : Text) → DigitFirst t → atoi t ≡ positive (magnitude t)
unfolding atoi is_digit
atoi-digits [] d = absurd (cc)
atoi-digits (c ∷ s) d = by_sign d.first d.rest d.is_text d.is_first
  where
    by_sign :
        (e : ℕ) (r : Text)
        → (c ∷ s) ≡ e ∷ r
        → is_digit e ≡ true
        → atoi (c ∷ s) ≡ positive (magnitude (c ∷ s))
    by_sign e r same h = ground arith

-- Reading what was written gives the number back, where it fits 64 bits.
pub atoi-itoa : (n : ℤ) → pos_part n ≤ 2 ^ 63 - 1 → neg_part n ≤ 2 ^ 63 → atoi (itoa n) ≡ some n
unfolding atoi itoa positive negative in_int64
atoi-itoa (pos n) low high =
    atoi-digits (written n n []) (written-DigitFirst n n [])
    ∙ rw (magnitude-written n) (ground arith)
atoi-itoa (negsuc n) low high = negative_lem
  where
    negative_lem : atoi (itoa (negsuc n)) ≡ some (negsuc n)
    negative_lem = rw (magnitude-written (suc n)) (ground arith)

-- What was read fits 64 bits.
pub atoi_range :
    (s : Text) (n : ℤ) → atoi s ≡ some n → (pos_part n ≤ 2 ^ 63 - 1) × (neg_part n ≤ 2 ^ 63)
unfolding atoi
atoi_range [] n e = absurd (cc)
atoi_range (c ∷ s) n e = by_sign (c == b'-') (c == b'+') e
  where
    fits : (m : ℤ) → in_int64 m ≡ some n → (pos_part n ≤ 2 ^ 63 - 1) × (neg_part n ≤ 2 ^ 63)
    fits m e' = ground arith

    of_positive :
        (o : Option ℕ) → positive o ≡ some n → (pos_part n ≤ 2 ^ 63 - 1) × (neg_part n ≤ 2 ^ 63)
    of_positive none e' = absurd (cc)
    of_positive (some m) e' = fits (pos m) e'

    of_negative :
        (o : Option ℕ) → negative o ≡ some n → (pos_part n ≤ 2 ^ 63 - 1) × (neg_part n ≤ 2 ^ 63)
    of_negative none e' = absurd (cc)
    of_negative (some m) e' = fits (sub_ℕ 0 m) e'

    by_sign :
        (minus plus : Bool)
        → (if minus
            then negative (magnitude s)
            else if plus
            then positive (magnitude s)
            else positive (magnitude (c ∷ s)))
          ≡ some n
        → (pos_part n ≤ 2 ^ 63 - 1) × (neg_part n ≤ 2 ^ 63)
    by_sign true plus e' = of_negative (magnitude s) e'
    by_sign false true e' = of_positive (magnitude s) e'
    by_sign false false e' = of_positive (magnitude (c ∷ s)) e'

wraps : wrap_int64 (pos (2 ^ 63)) ≡ negsuc (2 ^ 63 - 1)
unfolding wrap_int64
wraps = refl
