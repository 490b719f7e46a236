-- ===== src/Ratelimit/Concurrency.antt =====
-- ratelimit/concurrency.go: how many requests are handled at once. The state is the number of slots
-- taken of the channel, and beside it the handlers that run.
use boltcard.Prelude.{
  ℕ, suc, ◌-◌, ◌≤◌, ◌≡◌, List, [], ◌∷◌, Bool, true, false, ltb, arith, if◌then◌else◌, refl, ◌==◌,
}
use boltcard.Prelude.Int.{ℤ}
use boltcard.Ratelimit.{at_least_one}

-- The capacity of the channel of `New_concurrency_limiter`.
abbrev pub max_in_flight : ℤ → ℕ
max_in_flight n = at_least_one n

-- The select of `Middleware`: whether the handler runs, and the slots taken.
unfoldable pub enter : ℕ → ℕ → Bool × ℕ
enter capacity in_flight =
    if ltb in_flight capacity then (true, suc in_flight) else (false, in_flight)

-- The deferred receive.
abbrev pub leave : ℕ → ℕ
leave in_flight = in_flight - 1

-- A request comes in, or a handler that runs ends.
pub data Event : Type 0 where
  comes ends : Event

-- The slots taken, and the handlers that have started and not ended.
pub record Gate : Type 0 where
  pub slots : ℕ
  pub running : ℕ

abbrev pub idle : Gate
idle = record { slots = 0; running = 0 }

-- `Middleware`: a request that takes a slot is handled, and its handler gives the slot back.
unfoldable pub gate_after : ℕ → Gate → Event → Gate
gate_after capacity g comes =
    let (admitted, slots) = enter capacity g.slots in
    record { slots = slots; running = if admitted then suc g.running else g.running }
gate_after capacity g ends =
    if g.running == 0 then g else record { slots = leave g.slots; running = g.running - 1 }

unfoldable pub gate_at : ℕ → Gate → List Event → Gate
unfolding gate_after
gate_at capacity g [] = g
gate_at capacity g (e ∷ es) = gate_at capacity (gate_after capacity g e) es

-- Each handler that runs has one slot.
record IsPaired (capacity : ℕ) (g : Gate) : Type 0 where
  paired : g.slots ≡ g.running
  within : g.running ≤ capacity

gate_after-IsPaired :
    (capacity : ℕ) (g : Gate) (e : Event)
    → IsPaired capacity g
    → IsPaired capacity (gate_after capacity g e)
unfolding gate_after enter
gate_after-IsPaired capacity g comes h = record {
  paired = ground (arith, h.paired, h.within);
  within = ground (arith, h.paired, h.within);
}
gate_after-IsPaired capacity g ends h = record {
  paired = ground (arith, h.paired, h.within);
  within = ground (arith, h.paired, h.within);
}

gate_at-IsPaired :
    (capacity : ℕ) (g : Gate) (es : List Event)
    → IsPaired capacity g
    → IsPaired capacity (gate_at capacity g es)
unfolding gate_at
gate_at-IsPaired capacity g [] h = h
gate_at-IsPaired capacity g (e ∷ es) h =
    gate_at-IsPaired capacity (gate_after capacity g e) es (gate_after-IsPaired capacity g e h)

-- In any order of requests and ends of handlers, no more handlers run at once than the limit, or one
-- where the limit is below one; and a request is turned away only while that many run.
pub in_flight-le :
    (n : ℤ) (es : List Event)
    → ((gate_at (max_in_flight n) idle es).running ≤ max_in_flight n)
      × ((enter (max_in_flight n) (gate_at (max_in_flight n) idle es).slots).0 ≡ false
          → (gate_at (max_in_flight n) idle es).running ≡ max_in_flight n)
unfolding enter
in_flight-le n es =
    let h : IsPaired (max_in_flight n) (gate_at (max_in_flight n) idle es) =
      gate_at-IsPaired _ idle es (record { paired = refl; within = omega arith }) in
    (h.within, λ e. ground (arith, h.paired, h.within))
