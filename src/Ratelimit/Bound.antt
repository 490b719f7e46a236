-- ===== src/Ratelimit/Bound.antt =====
-- How many requests of one caller a limiter lets through.
use boltcard.Prelude.{
  ℕ, ◌+◌, ◌-◌, ◌*◌, ◌≤◌, ◌≡◌, refl, sym, ◌&&◌, List, [], ◌∷◌, Bool, true, false, ltb, arith,
  if◌then◌else◌,
}
use boltcard.Prelude.Int.{ℤ}
use boltcard.Text.{Text, text_eq, text_eq_iff}
use boltcard.Ratelimit.{Bucket, Limiter, token, at_least_one, new, put, tokens_of, prune, allow}
use boltcard.Ratelimit.Level.{
  level, Refills, taken, sum_product, level_later, allow_same, allow_other,
}

allow-Refills : (key : Text) (l : Limiter) (now : ℕ) → Refills l → Refills (allow key now l).1
unfolding allow prune
allow-Refills key l now h = by_tokens (ltb (tokens_of l now (l.buckets key)) token)
  where
    by_tokens :
        (few : Bool)
        → let b : Bucket = record { tokens = tokens_of l now (l.buckets key); last_seen = now } in
          let less : Bucket = record {
            tokens = tokens_of l now (l.buckets key) - token;
            last_seen = now;
          } in
          let r : Bool × Limiter =
            if few
            then (false, prune now (put key b l))
            else (true, put key less (prune now (put key b l))) in
          Refills r.1
    by_tokens true = h
    by_tokens false = h

allow-refill_rate :
    (key : Text) (l : Limiter) (now : ℕ) → (allow key now l).1.refill_rate ≡ l.refill_rate
unfolding allow prune
allow-refill_rate key l now = ground arith

-- Requests, each with the time since the one before it and its caller's key.
abbrev pub Requests : Type 0
Requests = List (ℕ × Text)

unfoldable pub duration : Requests → ℕ
duration [] = 0
duration ((gap, key) ∷ rs) = gap + duration rs

-- How many requests of a key a limiter lets through.
unfoldable pub admitted : Text → ℕ → Limiter → Requests → ℕ
admitted key now l [] = 0
admitted key now l ((gap, other) ∷ rs) =
    let rest = admitted key (now + gap) (allow other (now + gap) l).1 rs in
    (if text_eq key other && (allow other (now + gap) l).0 then 1 else 0) + rest

-- A request costs its own caller a token if it is let through, and nobody else anything.
allow-level :
    (key other : Text) (l : Limiter) (now : ℕ)
    → Refills l
    → level key now (allow other now l).1
        + (if text_eq key other && (allow other now l).0 then 1 else 0) * token
      ≤ level key now l
allow-level key other l now h = by_key (text_eq key other) refl
  where
    by_key :
        (same : Bool)
        → text_eq key other ≡ same
        → level key now (allow other now l).1
            + (if same && (allow other now l).0 then 1 else 0) * token
          ≤ level key now l
    by_key true e =
        rw (sym ((text_eq_iff key other).0 e)) (paid (allow key now l).0 (allow_same key l now))
      where
        paid :
            (b : Bool)
            → level key now (allow key now l).1 + taken b ≤ level key now l
            → level key now (allow key now l).1 + (if b then 1 else 0) * token ≤ level key now l
        paid true h' = h'
        paid false h' = h'
    by_key false e = omega (arith, allow_other key other l now h e)

product_same : (d r s : ℕ) → r ≡ s → d * r ≡ d * s
product_same d r s e = rw e refl

admitted-level :
    (key : Text) (now : ℕ) (l : Limiter) (rs : Requests)
    → Refills l
    → admitted key now l rs * token ≤ level key now l + duration rs * l.refill_rate
unfolding admitted duration
admitted-level key now l [] h = omega arith
admitted-level key now l ((gap, other) ∷ rs) h = omega (
  arith,
  admitted-level key (now + gap) (allow other (now + gap) l).1 rs
      (allow-Refills other l (now + gap) h),
  allow-level key other l (now + gap) h,
  level_later key l now gap,
  product_same (duration rs) _ _ (allow-refill_rate other l (now + gap)),
  sum_product l.refill_rate gap (duration rs),
)

-- With a burst of at most ten minutes' rate, a new limiter lets through, of the requests of any one
-- caller, at most the burst and the rate over the time they take, however many other callers there
-- are and however often their buckets are dropped. A limit below one counts as one.
pub admitted-le :
    (requests_per_minute burst : ℤ) (key : Text) (now : ℕ) (rs : Requests)
    → at_least_one burst ≤ 10 * at_least_one requests_per_minute
    → admitted key now (new requests_per_minute burst) rs * token
      ≤ at_least_one burst * token + duration rs * at_least_one requests_per_minute
unfolding new
admitted-le requests_per_minute burst key now rs small =
    admitted-level key now (new requests_per_minute burst) rs (omega (arith, small))
