-- ===== src/Text/Split.antt =====
-- `strings.Split` with a separator of one byte.
use boltcard.Prelude.{
  ℕ, zero, suc, ◌≡◌, refl, ◌++◌, Bool, true, false, List, [], ◌∷◌, ◌==◌, arith, length,
}
use boltcard.Text.{Text}

-- The parts of a text that starts with `c`, from those of the rest.
abbrev glue : Bool → ℕ → List Text → List Text
glue true c parts = [] ∷ parts
glue false c [] = (c ∷ []) ∷ []
glue false c (part ∷ parts) = (c ∷ part) ∷ parts

unfoldable pub split : ℕ → Text → List Text
split sep [] = [] ∷ []
split sep (c ∷ s) = glue (c == sep) c (split sep s)

glue-append :
    (b : Bool) (c : ℕ) (p : Text) (ps qs : List Text)
    → glue b c ((p ∷ ps) ++ qs) ≡ glue b c (p ∷ ps) ++ qs
glue-append true c p ps qs = refl
glue-append false c p ps qs = refl

-- There is a part always.
glue-cons :
    (b : Bool) (c : ℕ) (parts : List Text)
    → (p : Text) × (ps : List Text) × (glue b c parts ≡ p ∷ ps)
glue-cons true c parts = ([], parts, refl)
glue-cons false c [] = (c ∷ [], [], refl)
glue-cons false c (part ∷ parts) = (c ∷ part, parts, refl)

split-cons : (sep : ℕ) (s : Text) → (p : Text) × (ps : List Text) × (split sep s ≡ p ∷ ps)
unfolding split
split-cons sep [] = ([], [], refl)
split-cons sep (c ∷ s) = glue-cons (c == sep) c (split sep s)

-- The parts of two texts with a separator between them are the parts of the two.
pub split-append : (sep : ℕ) (s t : Text) → split sep (s ++ sep ∷ t) ≡ split sep s ++ split sep t
unfolding split
split-append sep [] t = ground arith
split-append sep (c ∷ s) t =
    let (p, ps, e) = split-cons sep s in
    rw (split-append sep s t, e) (glue-append (c == sep) c p ps (split sep t))

-- The entry at an index, and the empty text behind the last.
unfoldable pub entry : ℕ → List Text → Text
entry i [] = []
entry zero (p ∷ ps) = p
entry (suc i) (p ∷ ps) = entry i ps

pub entry-append : (ps qs : List Text) → entry (length ps) (ps ++ qs) ≡ entry 0 qs
unfolding entry
entry-append [] qs = refl
entry-append (p ∷ ps) qs = entry-append ps qs
