-- ===== src/Db/Rows.antt =====
-- SELECT and UPDATE over the rows of a table.
use mathlib.Core.Option.{some-injective}
use mathlib.Core.Path.{subst}
use boltcard.Prelude.{
  ℕ, suc, ◌≡◌, ◌≢◌, ◌<◌, ◌≤◌, refl, List, [], ◌∷◌, Option, none, some, Bool, true, false,
  if◌then◌else◌, arith, All,
}
use boltcard.Db.Schema.{no_rows}
use boltcard.Db.Monad.{Result, ok, err}

module _ {A : Type 0} where
  -- The first row that satisfies the WHERE clause.
  unfoldable pub select_row : (A → Bool) → List A → Option A
  select_row p [] = none
  select_row p (r ∷ rs) = if p r then some r else select_row p rs

  unfoldable pub select_rows : (A → Bool) → List A → List A
  select_rows p [] = []
  select_rows p (r ∷ rs) = let rest = select_rows p rs in if p r then r ∷ rest else rest

  unfoldable pub count_rows : (A → Bool) → List A → ℕ
  count_rows p [] = 0
  count_rows p (r ∷ rs) = let rest = count_rows p rs in if p r then suc rest else rest

  -- UPDATE ... SET f WHERE p
  unfoldable pub update_rows : (A → Bool) → (A → A) → List A → List A
  update_rows p f [] = []
  update_rows p f (r ∷ rs) = (if p r then f r else r) ∷ update_rows p f rs

  -- `row.Scan`, with sql.ErrNoRows where no row was selected.
  abbrev pub scan : {B : Type 0} → (A → B) → Option A → Result B
  scan f none = err no_rows
  scan f (some r) = ok (f r)

  pub select_row-holds :
      (p : A → Bool) (rs : List A) (r : A) → select_row p rs ≡ some r → p r ≡ true
  unfolding select_row
  select_row-holds p [] r e = ground arith
  select_row-holds p (x ∷ rs) r e = ground (arith, select_row-holds p rs r)

  pub All-update_rows :
      (P : A → Type 0) (p : A → Bool) (f : A → A) (rs : List A)
      → ((r : A) → p r ≡ true → P r → P (f r))
      → All P rs
      → All P (update_rows p f rs)
  unfolding update_rows
  All-update_rows P p f [] step h = h
  All-update_rows P p f (r ∷ rs) step h = (keep (p r) refl, All-update_rows P p f rs step h.1)
    where
      keep : (b : Bool) → p r ≡ b → P (if b then f r else r)
      keep true e = step r e h.0
      keep false e = h.0

  pub All-select_row :
      (P : A → Type 0) (p : A → Bool) (rs : List A) (r : A)
      → All P rs
      → select_row p rs ≡ some r
      → P r
  unfolding select_row
  All-select_row P p [] r h e = ground arith
  All-select_row P p (x ∷ rs) r h e = pick (p x) (All-select_row P p rs r h.1) e
    where
      pick :
          (b : Bool)
          → (select_row p rs ≡ some r → P r)
          → (if b then some x else select_row p rs) ≡ some r
          → P r
      pick true later e' = subst P (some-injective x r e') h.0
      pick false later e' = later e'

  -- The row after an update, where the update leaves the columns that `q` reads.
  unfoldable pub updated : (A → Bool) → (A → A) → Option A → Option A
  updated p f none = none
  updated p f (some r) = some (if p r then f r else r)

  pub select_row-update_rows :
      (q p : A → Bool) (f : A → A) (rs : List A)
      → ((r : A) → q (f r) ≡ q r)
      → select_row q (update_rows p f rs) ≡ updated p f (select_row q rs)
  unfolding select_row update_rows updated
  select_row-update_rows q p f [] h = refl
  select_row-update_rows q p f (r ∷ rs) h = ground (arith, h r, select_row-update_rows q p f rs h)

  -- No row that satisfies `p` is left, if `f` ends `p`.
  pub count_rows-update_rows :
      (p : A → Bool) (f : A → A) (rs : List A)
      → ((r : A) → p (f r) ≡ false)
      → count_rows p (update_rows p f rs) ≡ 0
  unfolding count_rows update_rows
  count_rows-update_rows p f [] h = refl
  count_rows-update_rows p f (r ∷ rs) h = ground (arith, h r, count_rows-update_rows p f rs h)

  -- Where a row is updated, one is selected afterwards that the update made.
  pub updated_row :
      (p : A → Bool) (f : A → A) (rs : List A)
      → ((r : A) → p (f r) ≡ p r)
      → 0 < count_rows p rs
      → (r : A) × (select_row p (update_rows p f rs) ≡ some (f r))
  unfolding count_rows update_rows select_row
  updated_row p f [] h n = absurd (omega (arith, n))
  updated_row p f (r ∷ rs) h n = first (p r) refl n (updated_row p f rs h)
    where
      first :
          (b : Bool)
          → p r ≡ b
          → 0 < (if b then suc (count_rows p rs) else count_rows p rs)
          → (0 < count_rows p rs → (x : A) × (select_row p (update_rows p f rs) ≡ some (f x)))
          → (x : A) × ((if p (if b then f r else r)
                then some (if b then f r else r)
                else select_row p (update_rows p f rs))
              ≡ some (f x))
      first true e n later = (r, ground (arith, h r, e))
      first false e n later = let (x, found) = later n in (x, rw e found)

  pub count_rows-le :
      (p q : A → Bool) (rs : List A)
      → ((r : A) → p r ≡ true → q r ≡ true)
      → count_rows p rs ≤ count_rows q rs
  unfolding count_rows
  count_rows-le p q [] h = omega arith
  count_rows-le p q (r ∷ rs) h = ground (arith, h r, count_rows-le p q rs h)

  -- An update keeps how many rows satisfy what it leaves.
  pub count_rows-kept :
      (q p : A → Bool) (f : A → A) (rs : List A)
      → ((r : A) → p r ≡ true → q (f r) ≡ q r)
      → count_rows q (update_rows p f rs) ≡ count_rows q rs
  unfolding count_rows update_rows
  count_rows-kept q p f [] h = refl
  count_rows-kept q p f (r ∷ rs) h = ground (arith, h r, count_rows-kept q p f rs h)

  -- An update adds no row to those that satisfy `q`.
  pub count_rows-update-le :
      (q p : A → Bool) (f : A → A) (rs : List A)
      → ((r : A) → p r ≡ true → q (f r) ≡ true → q r ≡ true)
      → count_rows q (update_rows p f rs) ≤ count_rows q rs
  unfolding count_rows update_rows
  count_rows-update-le q p f [] h = omega arith
  count_rows-update-le q p f (r ∷ rs) h = ground (arith, h r, count_rows-update-le q p f rs h)

  -- The only row that satisfies `q` satisfies `p` too, where one row does.
  pub only_row :
      (p q : A → Bool) (rs : List A)
      → ((r : A) → p r ≡ true → q r ≡ true)
      → count_rows q rs ≡ 1
      → count_rows p rs ≡ 1
      → (r : A) × (select_row q rs ≡ some r) × (p r ≡ true)
  unfolding count_rows select_row
  only_row p q [] h one_q one_p = absurd (omega (arith, one_q))
  only_row p q (r ∷ rs) h one_q one_p =
      first (q r) refl one_q (count_rows-le p q rs h) (only_row p q rs h)
    where
      first :
          (b : Bool)
          → q r ≡ b
          → (if b then suc (count_rows q rs) else count_rows q rs) ≡ 1
          → count_rows p rs ≤ count_rows q rs
          → (count_rows q rs ≡ 1
              → count_rows p rs ≡ 1
              → (x : A) × (select_row q rs ≡ some x) × (p x ≡ true))
          → (x : A) × ((if b then some r else select_row q rs) ≡ some x) × (p x ≡ true)
      first true e one le later = (r, refl, ground (arith, one_p, one, le))
      first false e one le later = later one (ground (arith, one_p, h r, e))

  -- A row that is selected is counted.
  pub select_row-counted :
      (p q : A → Bool) (rs : List A) (r : A)
      → select_row p rs ≡ some r
      → q r ≡ true
      → count_rows q rs ≢ 0
  unfolding select_row count_rows
  select_row-counted p q [] r e h none_counted = absurd (cc)
  select_row-counted p q (x ∷ rs) r e h none_counted = by_test (p x) e (select_row-counted p q rs r)
    where
      by_test :
          (b : Bool)
          → (if b then some x else select_row p rs) ≡ some r
          → (select_row p rs ≡ some r → q r ≡ true → count_rows q rs ≢ 0)
          → ⊥
      by_test true e' later =
          let same : q x ≡ true = rw (some-injective x r e') h in ground (arith, none_counted, same)
      by_test false e' later = later e' h (ground (arith, none_counted))
