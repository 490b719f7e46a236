-- ===== src/Ratelimit/Level.antt =====
-- The tokens of a caller: what a request and the passing of time do to them.
use boltcard.Prelude.{
  ℕ, ◌+◌, ◌-◌, ◌*◌, ◌≤◌, ◌<◌, ◌≡◌, refl, Option, none, some, Bool, true, false, ltb, arith,
  if◌then◌else◌,
}
use boltcard.Text.{Text, text_eq, text_eq_refl}
use boltcard.Ratelimit.{
  Bucket, Limiter, token, bucket_expiry, put, refilled, tokens_of, unexpired, prune, allow,
}

-- The tokens that a caller has.
abbrev pub level : Text → ℕ → Limiter → ℕ
level key now l = tokens_of l now (l.buckets key)

-- A bucket that has expired is full.
abbrev pub Refills : Limiter → Type 0
Refills l = l.burst ≤ bucket_expiry * l.refill_rate

product_le : (rate a b : ℕ) → a ≤ b → a * rate ≤ b * rate
product_le rate a b h = grind arith

pub sum_product : (rate a b : ℕ) → (a + b) * rate ≡ a * rate + b * rate
sum_product rate a b = grind arith

gap_product : (rate now gap seen : ℕ) → (now + gap - seen) * rate ≤ (now - seen) * rate + gap * rate
gap_product rate now gap seen = omega (
  arith,
  product_le rate (now + gap - seen) (now - seen + gap) (omega arith),
  sum_product rate (now - seen) gap,
)

expired_product :
    (rate elapsed : ℕ) → bucket_expiry < elapsed → bucket_expiry * rate ≤ elapsed * rate
expired_product rate elapsed h = grind arith

refilled_later :
    (l : Limiter) (now gap : ℕ) (b : Bucket)
    → refilled l (now + gap) b ≤ refilled l now b + gap * l.refill_rate
unfolding refilled
refilled_later l now gap b = grind (arith, gap_product l.refill_rate now gap b.last_seen)

refilled_expired :
    (l : Limiter) (now : ℕ) (b : Bucket)
    → Refills l
    → bucket_expiry < now - b.last_seen
    → l.burst ≤ refilled l now b
unfolding refilled
refilled_expired l now b h e = grind (arith, expired_product l.refill_rate (now - b.last_seen) e)

pub level_later :
    (key : Text) (l : Limiter) (now gap : ℕ)
    → level key (now + gap) l ≤ level key now l + gap * l.refill_rate
level_later key l now gap = of (l.buckets key)
  where
    of : (o : Option Bucket) → tokens_of l (now + gap) o ≤ tokens_of l now o + gap * l.refill_rate
    of none = omega arith
    of (some b) = refilled_later l now gap b

-- Dropping the expired buckets takes no token away, and gives none.
unexpired_tokens :
    (l : Limiter) (now : ℕ) (o : Option Bucket)
    → Refills l
    → tokens_of l now (unexpired now o) ≤ tokens_of l now o
unexpired_tokens l now none h = omega arith
unexpired_tokens l now (some b) h = by_age (ltb bucket_expiry (now - b.last_seen)) refl
  where
    by_age :
        (old : Bool)
        → ltb bucket_expiry (now - b.last_seen) ≡ old
        → tokens_of l now (if old then none else some b) ≤ refilled l now b
    by_age true e = refilled_expired l now b h (ground arith)
    by_age false e = omega arith

refilled_now :
    (l : Limiter) (now n : ℕ) → refilled l now (record { tokens = n; last_seen = now }) ≡ n
unfolding refilled
refilled_now l now n = ground arith

-- The parts of a token that a request took.
abbrev pub taken : Bool → ℕ
taken b = if b then token else 0

pub allow_same :
    (key : Text) (l : Limiter) (now : ℕ)
    → level key now (allow key now l).1 + taken (allow key now l).0 ≤ level key now l
unfolding allow prune
allow_same key l now =
    by_tokens (tokens_of l now (l.buckets key)) (ltb (tokens_of l now (l.buckets key)) token) refl
  where
    by_tokens :
        (n : ℕ) (few : Bool)
        → ltb n token ≡ few
        → let pruned = prune now (put key (record { tokens = n; last_seen = now }) l) in
          let r : Bool × Limiter =
            if few
            then (false, pruned)
            else (true, put key (record { tokens = n - token; last_seen = now }) pruned) in
          level key now r.1 + taken r.0 ≤ n
    by_tokens n true e = rw (text_eq_refl key) (ground (arith, refilled_now l now n))
    by_tokens n false e = rw (text_eq_refl key) (ground (arith, refilled_now l now (n - token)))

pub allow_other :
    (key other : Text) (l : Limiter) (now : ℕ)
    → Refills l
    → text_eq key other ≡ false
    → level key now (allow other now l).1 ≤ level key now l
unfolding allow prune
allow_other key other l now h ne =
    by_tokens (tokens_of l now (l.buckets other)) (ltb (tokens_of l now (l.buckets other)) token)
  where
    by_tokens :
        (n : ℕ) (few : Bool)
        → let pruned = prune now (put other (record { tokens = n; last_seen = now }) l) in
          let r : Bool × Limiter =
            if few
            then (false, pruned)
            else (true, put other (record { tokens = n - token; last_seen = now }) pruned) in
          level key now r.1 ≤ level key now l
    by_tokens n true = rw ne (unexpired_tokens l now (l.buckets key) h)
    by_tokens n false = rw ne (unexpired_tokens l now (l.buckets key) h)
