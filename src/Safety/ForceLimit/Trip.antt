-- ===== src/Safety/ForceLimit/Trip.antt =====
-- When the force limit is over, stated over the integers.
use motor_control.Base.{
  ◌≡◌, ◌+◌, ◌<◌, ◌≤◌, ◌^◌, ◌⊎◌, ◌↔◌, true, ℤ, pos, ◌<ℤ◌, ◌-ℤ◌, abs_ℕ, pos_part, neg_part, arith,
  to_i32_id, to_i64_id,
}
use motor_control.Safety.ForceLimit.{is_recent_sample, peak_of, check_force_limit, default_stale_ns}

-- For times of magnitude below 2^62 ns, a sample is recent exactly when its time is positive,
-- not after now, and less than the staleness bound before now.
pub is_recent_sample_iff :
    (now sample stale : ℤ)
    → abs_ℕ now < 2 ^ 62
    → abs_ℕ sample < 2 ^ 62
    → (is_recent_sample now sample stale ≡ true) ↔ (
        (pos 0 <ℤ sample)
        × (pos_part sample + neg_part now ≤ pos_part now + neg_part sample)
        × (pos_part now + neg_part sample + neg_part stale
            < pos_part stale + pos_part sample + neg_part now))
unfolding is_recent_sample ◌-ℤ◌
is_recent_sample_iff now sample stale hn hs = ground (arith, to_i64_id (now -ℤ sample))

-- A channel is over the limit if its sample is recent and its force is larger than the limit.
abbrev pub IsOver : ℤ → ℤ → ℤ → ℤ → Type 0
IsOver limit now force last =
    (is_recent_sample now last default_stale_ns ≡ true) × (pos_part limit < abs_ℕ force)

-- For forces of magnitude below 2^31 mN, check_force_limit reports an excess exactly when the
-- limit is positive and one of the channels has a recent sample and a magnitude larger than the
-- limit.
pub over_limit_iff :
    (limit now force0 force1 last0 last1 : ℤ)
    → abs_ℕ force0 < 2 ^ 31
    → abs_ℕ force1 < 2 ^ 31
    → ((check_force_limit limit now force0 force1 last0 last1 default_stale_ns).over_limit ≡ true)
      ↔ ((pos 0 <ℤ limit) × ((IsOver limit now force0 last0) ⊎ (IsOver limit now force1 last1)))
unfolding check_force_limit peak_of
over_limit_iff limit now force0 force1 last0 last1 h0 h1 =
    ground (arith, to_i32_id (pos (abs_ℕ force0)), to_i32_id (pos (abs_ℕ force1)))

-- check_force_limit has valid data exactly when the limit is positive and the sample of one of
-- the channels is recent.
pub has_valid_data_iff :
    (limit now force0 force1 last0 last1 : ℤ)
    → ((check_force_limit limit now force0 force1 last0 last1 default_stale_ns).has_valid_data
        ≡ true)
      ↔ ((pos 0 <ℤ limit)
          × ((is_recent_sample now last0 default_stale_ns ≡ true)
              ⊎ (is_recent_sample now last1 default_stale_ns ≡ true)))
unfolding check_force_limit
has_valid_data_iff limit now force0 force1 last0 last1 = ground arith

pub valid_of_over :
    (limit now force0 force1 last0 last1 stale : ℤ)
    → (check_force_limit limit now force0 force1 last0 last1 stale).over_limit ≡ true
    → (check_force_limit limit now force0 force1 last0 last1 stale).has_valid_data ≡ true
unfolding check_force_limit
valid_of_over limit now force0 force1 last0 last1 stale h = ground arith
