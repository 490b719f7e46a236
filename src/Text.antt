-- ===== src/Text.antt =====
-- Go strings and byte slices, as lists of bytes: comparison, `strings.TrimSpace`,
-- `strings.HasSuffix`, and the blank-padded comparison of a Postgres CHAR(n) column.
pub mod Hex
pub mod Json
pub mod Numbers
pub mod Runes
pub mod Split
pub mod Url
use Prim.Native.Char.{code}
use boltcard.Prelude.{
  ℕ, zero, suc, ltb, ◌≤◌, ◌+◌, ◌-◌, ◌≡◌, refl, ◌↔◌, Bool, true, false, ◌&&◌, ◌||◌, List, [], ◌∷◌,
  ◌++◌, arith, String, ◌==◌, leb, if◌then◌else◌, length, replicate, drop,
}

abbrev pub Text : Type 0
Text = List ℕ

-- The bytes of an ASCII literal.
abbrev pub codes : String → Text
codes String.[] = []
codes (String.◌∷◌ c s) = code c ∷ codes s

unfoldable pub text_eq : Text → Text → Bool
text_eq [] [] = true
text_eq [] (y ∷ ys) = false
text_eq (x ∷ xs) [] = false
text_eq (x ∷ xs) (y ∷ ys) = x == y && text_eq xs ys

pub text_eq_iff : (s t : Text) → (text_eq s t ≡ true) ↔ (s ≡ t)
unfolding text_eq
text_eq_iff [] [] = ground arith
text_eq_iff [] (y ∷ ys) = ground arith
text_eq_iff (x ∷ xs) [] = ground arith
text_eq_iff (x ∷ xs) (y ∷ ys) = ground (arith, text_eq_iff xs ys)

pub text_eq_refl : (s : Text) → text_eq s s ≡ true
text_eq_refl s = (text_eq_iff s s).1 refl

-- One byte in front of a text that has lost its trailing bytes already.
before_stripped : (ℕ → Bool) → ℕ → Text → Text
before_stripped is_blank c [] = if is_blank c then [] else c ∷ []
before_stripped is_blank c (d ∷ s) = c ∷ d ∷ s

unfoldable pub strip_right : (ℕ → Bool) → Text → Text
unfolding before_stripped
strip_right is_blank [] = []
strip_right is_blank (c ∷ s) = before_stripped is_blank c (strip_right is_blank s)

unfoldable pub strip_left : (ℕ → Bool) → Text → Text
strip_left is_blank [] = []
strip_left is_blank (c ∷ s) = if is_blank c then strip_left is_blank s else c ∷ s

abbrev pub is_space : ℕ → Bool
is_space c = c == 32

-- The ASCII part of `unicode.IsSpace`.
abbrev is_white : ℕ → Bool
is_white c = c == 32 || (leb 9 c && leb c 13)

unfoldable pub trim_space : Text → Text
unfolding strip_right strip_left
trim_space s = strip_right is_white (strip_left is_white s)

unfoldable pub has_suffix : Text → Text → Bool
unfolding text_eq
has_suffix s suffix =
    leb (length suffix) (length s) && text_eq (drop (length s - length suffix) s) suffix

-- A byte that starts a character of UTF-8, and so is no continuation.
abbrev starts_character : ℕ → Bool
starts_character c = ltb c 128 || leb 192 c

-- The characters of a text.
unfoldable pub characters : Text → ℕ
characters [] = 0
characters (c ∷ s) = (if starts_character c then 1 else 0) + characters s

-- The first n characters.
unfoldable pub cut : ℕ → Text → Text
cut n [] = []
cut n (c ∷ s) =
    let rest = cut (if starts_character c then n - 1 else n) s in
    if starts_character c && n == 0 then [] else c ∷ rest

-- What is behind the first n characters.
unfoldable pub excess : ℕ → Text → Text
excess n [] = []
excess n (c ∷ s) =
    let rest = excess (if starts_character c then n - 1 else n) s in
    if starts_character c && n == 0 then c ∷ s else rest

unfoldable pub all_blank : Text → Bool
all_blank [] = true
all_blank (c ∷ s) = is_space c && all_blank s

-- A value fits a CHAR(n) or VARCHAR(n) column where only blanks are behind n characters. They are cut.
unfoldable pub fits : ℕ → Text → Bool
unfolding excess all_blank
fits n s = all_blank (excess n s)

-- A CHAR(n) column holds its value padded with blanks to n characters.
unfoldable pub pad : ℕ → Text → Text
unfolding cut characters
pad n s = cut n s ++ replicate (n - characters (cut n s)) 32

pub cut-all : (n : ℕ) (s : Text) → characters s ≤ n → cut n s ≡ s
unfolding cut characters
cut-all n [] h = refl
cut-all n (c ∷ s) h = ground (arith, h, cut-all (if starts_character c then n - 1 else n) s)

pub characters-le : (s : Text) → characters s ≤ length s
unfolding characters
characters-le [] = omega arith
characters-le (c ∷ s) = ground (arith, characters-le s)

-- Postgres compares two CHAR values without their trailing blanks.
unfoldable pub bpchar_eq : Text → Text → Bool
unfolding strip_right text_eq
bpchar_eq s t = text_eq (strip_right is_space s) (strip_right is_space t)

strip_right-blanks : (n : ℕ) → strip_right is_space (replicate n 32) ≡ []
unfolding strip_right
strip_right-blanks zero = refl
strip_right-blanks (suc n) = ground (arith, strip_right-blanks n)

pub strip_right-pad :
    (n : ℕ) (s : Text) → strip_right is_space (s ++ replicate n 32) ≡ strip_right is_space s
unfolding strip_right
strip_right-pad n [] = strip_right-blanks n
strip_right-pad n (c ∷ s) = ground (arith, strip_right-pad n s)

trims : trim_space (codes "  a b  ") ≡ codes "a b"
unfolding trim_space
trims = refl
