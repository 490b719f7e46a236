-- ===== src/Text/Runes.antt =====
-- unicode/utf8: the runes that `range` over a string gives.
use mathlib.Core.Path.{subst}
use boltcard.Prelude.{
  ℕ, zero, suc, ◌+◌, ◌-◌, ◌*◌, ◌≤◌, ◌<◌, ◌≡◌, refl, Bool, true, false, ◌&&◌, List, [], ◌∷◌, leb,
  ltb, ◌==◌, get_or, arith, All, if◌then◌else◌,
}
use boltcard.Text.{Text}

-- U+FFFD, for a byte that starts no encoding.
abbrev pub rune_error : ℕ
rune_error = 0xfffd

abbrev is_continuation : ℕ → Bool
is_continuation c = leb 0x80 c && leb c 0xbf

-- The range of the second byte depends on the first, which rules out long forms, surrogates and
-- what lies above U+10FFFF.
unfoldable pub second_byte_valid : ℕ → ℕ → Bool
second_byte_valid b c =
    if b == 0xe0
    then leb 0xa0 c && leb c 0xbf
    else if b == 0xed
    then leb 0x80 c && leb c 0x9f
    else if b == 0xf0
    then leb 0x90 c && leb c 0xbf
    else if b == 0xf4
    then leb 0x80 c && leb c 0x8f
    else is_continuation c

abbrev part : ℕ → ℕ
part c = c - 0x80

-- The first rune of a text that starts with `b`, and the number of bytes behind `b` that it takes.
unfoldable pub first_rune : ℕ → Text → ℕ × ℕ
unfolding second_byte_valid
first_rune b s =
    let c = get_or s 0 0 in
    let d = get_or s 1 0 in
    let e = get_or s 2 0 in
    if◌then◌else◌ {A = ℕ × ℕ} (ltb b 0x80) (b, 0)
      (if◌then◌else◌ {A = ℕ × ℕ} (leb 0xc2 b && leb b 0xdf && is_continuation c)
        ((b - 0xc0) * 64 + part c, 1)
        (if◌then◌else◌ {A = ℕ × ℕ}
          (leb 0xe0 b && leb b 0xef && second_byte_valid b c && is_continuation d)
          ((b - 0xe0) * 4096 + part c * 64 + part d, 2)
          (if◌then◌else◌ {A = ℕ × ℕ}
            (leb 0xf0 b
              && leb b 0xf4
              && second_byte_valid b c
              && is_continuation d
              && is_continuation e)
            ((b - 0xf0) * 262144 + part c * 4096 + part d * 64 + part e, 3) (rune_error, 0))))

-- The runes behind the next `skip` bytes.
unfoldable pub runes_after : ℕ → Text → List ℕ
unfolding first_rune
runes_after skip [] = []
runes_after zero (b ∷ s) = (first_rune b s).0 ∷ runes_after (first_rune b s).1 s
runes_after (suc skip) (b ∷ s) = runes_after skip s

unfoldable pub runes : Text → List ℕ
unfolding runes_after
runes s = runes_after 0 s

abbrev pub IsAscii : Text → Type 0
IsAscii = All (λ c. c < 0x80)

pub runes_ascii : (s : Text) → IsAscii s → runes s ≡ s
unfolding runes first_rune
runes_ascii [] h = refl
runes_ascii (c ∷ s) h =
    let small : ltb c 0x80 ≡ true = ground arith in rw (small, runes_ascii s h.1) refl

-- A rune of more than one byte, or of a byte that starts none, is no ASCII rune.
first_rune_high : (b : ℕ) (s : Text) → 0x80 ≤ b → 0x80 ≤ (first_rune b s).0
unfolding first_rune second_byte_valid
first_rune_high b s h = ground arith

pub first_rune_low : (b : ℕ) (s : Text) → b < 0x80 → first_rune b s ≡ (b, 0)
unfolding first_rune
first_rune_low b s h = ground arith

runes-ascii_first : (c : ℕ) (s : Text) → c < 0x80 → runes (c ∷ s) ≡ c ∷ runes s
unfolding runes
runes-ascii_first c s h = rw (first_rune_low c s h) refl

-- A text whose runes are all ASCII is its own runes.
pub runes_low : (s : Text) → IsAscii (runes s) → runes s ≡ s
unfolding runes
runes_low [] h = refl
runes_low (c ∷ s) h = by_size (ltb c 0x80) refl (runes_low s)
  where
    by_size :
        (b : Bool) → ltb c 0x80 ≡ b → (IsAscii (runes s) → runes s ≡ s) → runes (c ∷ s) ≡ c ∷ s
    by_size true e rec =
        let first : runes (c ∷ s) ≡ c ∷ runes s = runes-ascii_first c s (ground arith) in
        rw (first, rec ((subst IsAscii first h).1)) refl
    by_size false e rec = absurd (ground (arith, first_rune_high c s, h.0))

decodes :
    (runes (0xc3 ∷ 0xa9 ∷ 0xe2 ∷ 0x82 ∷ 0xac ∷ 0xff ∷ 0x41 ∷ [])
      ≡ 0xe9 ∷ 0x20ac ∷ 0xfffd ∷ 0x41 ∷ [])
unfolding runes first_rune
decodes = refl
