-- ===== src/Text/Url.antt =====
-- net/url: `PathEscape`, and `PathUnescape`, which net/http applies to the path of a request.
use mathlib.Core.Path.{subst}
use boltcard.Prelude.{
  ℕ, ◌+◌, ◌-◌, ◌*◌, ◌/◌, ◌%◌, ◌<◌, ◌≡◌, ◌≢◌, refl, ◌++◌, Bool, true, false, not, ◌&&◌, ◌||◌, [],
  ◌∷◌, Option, none, some, ◌==◌, ltb, leb, arith, All, ap, Bool-cases, inl, inr, if◌then◌else◌,
}
use boltcard.Text.{Text}
use boltcard.Text.Hex.{hex_value, IsBytes}

abbrev percent : ℕ
percent = b'%'

abbrev upper_hex : ℕ → ℕ
upper_hex n = if ltb n 10 then b'0' + n else b'A' + (n - 10)

is_alphanumeric : ℕ → Bool
is_alphanumeric c =
    (leb b'a' c && leb c b'z') || (leb b'A' c && leb c b'Z') || (leb b'0' c && leb c b'9')

-- `shouldEscape`, in a segment of a path.
should_escape : ℕ → Bool
unfolding is_alphanumeric
should_escape c = not (
    is_alphanumeric c
    || c == b'-'
    || c == b'_'
    || c == b'.'
    || c == b'~'
    || c == b'$'
    || c == b'&'
    || c == b'+'
    || c == b':'
    || c == b'='
    || c == b'@')

escape_byte : ℕ → Text
unfolding should_escape
escape_byte c =
    if should_escape c then percent ∷ upper_hex (c / 16) ∷ upper_hex (c % 16) ∷ [] else c ∷ []

unfoldable pub path_escape : Text → Text
unfolding escape_byte
path_escape [] = []
path_escape (c ∷ s) = escape_byte c ++ path_escape s

join : Option ℕ → Option ℕ → Option Text → Option Text
join (some h) (some l) (some bs) = some ((h * 16 + l) ∷ bs)
join _ _ _ = none

keep : ℕ → Option Text → Option Text
keep c none = none
keep c (some s) = some (c ∷ s)

-- `none` where a `%` has no two hexadecimal digits behind it.
unfoldable pub path_unescape : Text → Option Text
unfolding hex_value join keep
path_unescape [] = some []
path_unescape (c ∷ []) = if c == percent then none else some (c ∷ [])
path_unescape (c ∷ d ∷ []) = if c == percent then none else keep c (path_unescape (d ∷ []))
path_unescape (c ∷ d ∷ e ∷ s) = elim (c == percent) [
  | true ↦ join (hex_value d) (hex_value e) (path_unescape s)
  | false ↦ keep c (path_unescape (d ∷ e ∷ s))
]

hex_value-upper_hex : (n : ℕ) → n < 16 → hex_value (upper_hex n) ≡ some n
unfolding hex_value
hex_value-upper_hex n h = ground arith

unescape-kept : (c : ℕ) (s : Text) → c ≢ percent → path_unescape (c ∷ s) ≡ keep c (path_unescape s)
unfolding path_unescape keep
unescape-kept c [] h = ground arith
unescape-kept c (d ∷ []) h = ground arith
unescape-kept c (d ∷ e ∷ s) h = ground arith

unescape-escaped :
    (c : ℕ) (s : Text)
    → c < 256
    → path_unescape (percent ∷ upper_hex (c / 16) ∷ upper_hex (c % 16) ∷ s)
      ≡ keep c (path_unescape s)
unfolding path_unescape
unescape-escaped c s h =
    rw (hex_value-upper_hex (c / 16) (omega arith), hex_value-upper_hex (c % 16) (omega arith))
      (joined (path_unescape s))
  where
    joined : (o : Option Text) → join (some (c / 16)) (some (c % 16)) o ≡ keep c o
    joined none = refl
    joined (some bs) = ap (λ n. some (n ∷ bs)) (omega arith)

escapes_percent : should_escape percent ≡ true
unfolding should_escape
escapes_percent = refl

-- A byte that is kept is none of those that are escaped.
kept-differs : (c d : ℕ) → should_escape c ≡ false → should_escape d ≡ true → c ≢ d
kept-differs c d e f is =
    let g : should_escape d ≡ false = subst (λ x. should_escape x ≡ false) is e in absurd (cc)

escaped_byte :
    (c : ℕ) (s : Text) → c < 256 → path_unescape (escape_byte c ++ s) ≡ keep c (path_unescape s)
unfolding escape_byte
escaped_byte c s h = elim (Bool-cases (should_escape c)) [
  | inl e ↦ rw (e) (unescape-escaped c s h)
  | inr e ↦ rw (e) (unescape-kept c s (kept-differs c percent e escapes_percent))
]

-- Unescaping gives back the text that was escaped.
pub path_unescape-path_escape : (s : Text) → IsBytes s → path_unescape (path_escape s) ≡ some s
unfolding path_escape
path_unescape-path_escape [] h = unfold path_unescape in refl
path_unescape-path_escape (c ∷ s) h =
    rw (escaped_byte c (path_escape s) h.0, path_unescape-path_escape s h.1) (unfold keep in refl)

-- What is escaped is one segment of a path.
abbrev InSegment : ℕ → Type 0
InSegment c = (c ≢ b'/') × (c ≢ b'?') × (c ≢ b'#')

abbrev pub IsSegment : Text → Type 0
IsSegment = All InSegment

upper_hex-InSegment : (n : ℕ) → n < 16 → InSegment (upper_hex n)
upper_hex-InSegment n h =
    ((λ e. ground (arith, e, h)), (λ e. ground (arith, e, h)), λ e. ground (arith, e, h))

kept-InSegment : (c : ℕ) → should_escape c ≡ false → InSegment c
unfolding should_escape
kept-InSegment c e =
    (kept-differs c b'/' e refl, kept-differs c b'?' e refl, kept-differs c b'#' e refl)

escape_byte-IsSegment :
    (c : ℕ) → c < 256 → (s : Text) → IsSegment s → IsSegment (escape_byte c ++ s)
unfolding escape_byte
escape_byte-IsSegment c h s hs = elim (Bool-cases (should_escape c)) [
  | inl e ↦ rw (e) (
    (
      λ x. absurd (ground (arith, x)),
      λ x. absurd (ground (arith, x)),
      λ x. absurd (ground (arith, x)),
    ),
    (
      upper_hex-InSegment (c / 16) (omega (arith, h)),
      (upper_hex-InSegment (c % 16) (omega arith), hs),
    ),
  )
  | inr e ↦ rw (e) (kept-InSegment c e, hs)
]

pub path_escape-IsSegment : (s : Text) → IsBytes s → IsSegment (path_escape s)
unfolding path_escape
path_escape-IsSegment [] h = tt
path_escape-IsSegment (c ∷ s) h = escape_byte-IsSegment c h.0 _ (path_escape-IsSegment s h.1)
