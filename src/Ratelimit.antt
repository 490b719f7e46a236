-- ===== src/Ratelimit.antt =====
-- ratelimit/ratelimit.go: a token bucket for each caller. `buckets` is the map, from a key to its
-- bucket. Times are microseconds. Tokens are counted in parts, 60000000 to a token, so that the
-- rate of n requests a minute adds n parts each microsecond: the float64 sums of the code are exact
-- here.
pub mod Callers
pub mod Level
pub mod Bound
pub mod Concurrency
use boltcard.Prelude.{ℕ, ◌+◌, ◌-◌, ◌*◌, Option, none, some, Bool, true, false, ltb, if◌then◌else◌}
use boltcard.Prelude.Int.{ℤ, pos, negsuc}
use boltcard.Text.{Text, text_eq}
use boltcard.Db.Schema.{second}

pub record Bucket : Type 0 where
  pub tokens : ℕ
  pub last_seen : ℕ

pub record Limiter : Type 0 where
  pub buckets : Text → Option Bucket
  pub refill_rate : ℕ
  pub burst : ℕ

abbrev pub minute : ℕ
minute = 60 * second

-- One token, in parts.
abbrev pub token : ℕ
token = minute

abbrev pub bucket_expiry : ℕ
bucket_expiry = 10 * minute

abbrev pub at_least_one : ℤ → ℕ
at_least_one (pos n) = if ltb n 1 then 1 else n
at_least_one (negsuc n) = 1

unfoldable pub new : ℤ → ℤ → Limiter
new requests_per_minute burst = record {
  buckets = λ key. none;
  refill_rate = at_least_one requests_per_minute;
  burst = at_least_one burst * token;
}

-- `l.buckets[key] = b`
abbrev pub put : Text → Bucket → Limiter → Limiter
put key b l = record l { buckets = λ k. if text_eq k key then some b else l.buckets k }

unfoldable pub refilled : Limiter → ℕ → Bucket → ℕ
refilled l now b =
    let elapsed = now - b.last_seen in
    if ltb 0 elapsed
    then if ltb l.burst (b.tokens + elapsed * l.refill_rate)
      then l.burst
      else b.tokens + elapsed * l.refill_rate
    else b.tokens

-- The tokens of a key when a request for it comes in.
abbrev pub tokens_of : Limiter → ℕ → Option Bucket → ℕ
tokens_of l now none = l.burst
tokens_of l now (some b) = refilled l now b

abbrev pub unexpired : ℕ → Option Bucket → Option Bucket
unexpired now none = none
unexpired now (some b) = if ltb bucket_expiry (now - b.last_seen) then none else some b

unfoldable pub prune : ℕ → Limiter → Limiter
prune now l = record l { buckets = λ k. unexpired now (l.buckets k) }

unfoldable pub allow : Text → ℕ → Limiter → Bool × Limiter
unfolding refilled prune text_eq
allow key now l =
    let tokens = tokens_of l now (l.buckets key) in
    let pruned = prune now (put key (record { tokens = tokens; last_seen = now }) l) in
    if ltb tokens token
    then (false, pruned)
    else (true, put key (record { tokens = tokens - token; last_seen = now }) pruned)
