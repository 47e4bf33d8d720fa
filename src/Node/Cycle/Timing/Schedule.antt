-- ===== src/Node/Cycle/Timing/Schedule.antt =====
-- cpp/src/epos_control/src/epos_motor_node.cpp: the wake-up times of the loop.
use motor_control.Base.{◌≡◌, ◌<◌, ◌^◌, ◌⊎◌, ℤ, pos, ◌≤ℤ◌, ◌<ℤ◌, ◌+ℤ◌, ◌/ℤ◌, abs_ℕ, to_i64_id, arith}
use motor_control.Node.State.{Params, Node}
use motor_control.Node.Cycle.Timing.{next_wake, period_ns, schedule}

next_wake_lem :
    (next period now : ℤ)
    → abs_ℕ next < 2 ^ 62
    → abs_ℕ now < 2 ^ 62
    → abs_ℕ period < 2 ^ 62
    → pos 0 <ℤ period
    → (now <ℤ next_wake next period now)
      × ((next_wake next period now ≡ next +ℤ period)
          ⊎ ((next +ℤ period ≤ℤ now) × (next_wake next period now ≡ now +ℤ period)))
unfolding next_wake ◌+ℤ◌
next_wake_lem next period now hn hm hp h =
    ground (arith, to_i64_id (next +ℤ period), to_i64_id (now +ℤ period))

module _ {F : Type 0} where
  period_bounds :
      (p : Params F)
      → p.cycle_hz ≤ℤ pos 1_000_000_000
      → (pos 0 <ℤ period_ns p) × (period_ns p ≤ℤ pos 1_000_000_000)
  unfolding period_ns ◌/ℤ◌
  period_bounds p h = ground arith

  -- For times of magnitude below 2^62 ns and a rate of at most 10^9 Hz, the period is between 1
  -- ns and 1 s, and the next wake-up lies after now: one period after the last wake-up or, if
  -- that is not after now, one period after now.
  pub schedule_lem :
      (now : ℤ) (n : Node F)
      → abs_ℕ n.rt.next_ns < 2 ^ 62
      → abs_ℕ now < 2 ^ 62
      → n.params.cycle_hz ≤ℤ pos 1_000_000_000
      → let period = period_ns n.params in
        let next = n.rt.next_ns +ℤ period in
        let m = schedule now n in
        (now <ℤ m.rt.next_ns)
        × (pos 0 <ℤ period)
        × (period ≤ℤ pos 1_000_000_000)
        × ((m.rt.next_ns ≡ next) ⊎ ((next ≤ℤ now) × (m.rt.next_ns ≡ now +ℤ period)))
  unfolding schedule
  schedule_lem now n hn hm hz =
      let (positive, bound) = period_bounds n.params hz in
      let (later, which) =
        next_wake_lem n.rt.next_ns (period_ns n.params) now hn hm (ground (arith, positive, bound))
          positive in
      (later, positive, bound, which)
