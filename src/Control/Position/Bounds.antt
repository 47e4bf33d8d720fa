-- ===== src/Control/Position/Bounds.antt =====
-- cpp/src/epos_control/include/control/position_control.hpp: the speed limit of a position command.
use mathlib.Core.Path.{subst}
use motor_control.Base.{
  ◌≡◌, ◌⊎◌, sym, refl, true, false, ◌&&◌, ◌||◌, not, ℕ, zero, suc, ◌*◌, ◌≤◌, ℤ, pos, negsuc, arith,
  ◌≤ℤ◌, ◌<ℤ◌, ◌-ℤ◌, neg_ℤ, max_ℤ, abs_ℕ, abs_i32, to_i32, to_i32_id, if◌then◌else◌, inl, inr, Bool,
  le_ℤ,
}
use motor_control.Double.{Double, nought, fclamp, ◌≼◌, ◌⊕◌, ◌⊗◌, ◌⊘◌}
use motor_control.Double.Laws.{IsOrdered, fclamp_bounds}
use motor_control.Double.Rounding.{IsRounding, IsExact}
use motor_control.Waveform.{WaveformConfig, is_position_sine}
use motor_control.Control.Position.{
  PositionControlState, max_tps_of, position_goal, compute_position_csv_command,
}

positive_max : (a : ℤ) → (m : ℕ) × (max_ℤ (pos 1) a ≡ pos (suc m))
positive_max (pos zero) = (0, ground arith)
positive_max (pos (suc m)) = (m, ground arith)
positive_max (negsuc m) = (0, ground arith)

opposite : (m : ℕ) → neg_ℤ (pos m) ≤ℤ pos m
opposite m = ground arith

nothing : (a : ℤ) → abs_ℕ a ≤ 0 * 60 → a ≡ pos 0
nothing a h = ground (arith, h)

abs_ℕ-neg_ℤ : (m : ℕ) → abs_ℕ (neg_ℤ (pos m)) ≡ m
abs_ℕ-neg_ℤ m = ground arith

abs_ℕ-pos : (m : ℕ) → abs_ℕ (pos m) ≡ m
abs_ℕ-pos m = omega arith

within : (a : ℤ) (n : ℕ) → neg_ℤ (pos n) ≤ℤ a → a ≤ℤ pos n → abs_ℕ a ≤ n
within a n low high = ground (arith, low, high)

far_or_running :
    (active finished : Bool) (e : ℤ)
    → ((not active || finished) && le_ℤ e (pos 3)) ≡ false
    → ((active ≡ true) × (finished ≡ false)) ⊎ (pos 3 <ℤ e)
far_or_running active finished e h = ground (arith, h)

module _ {F : Type 0} ⦃d : Double F⦄ where
  open d use {of_int, lit, lround}

  max_tps_of-positive : (wf : WaveformConfig F) (limit : ℤ) → pos 1 ≤ℤ max_tps_of wf limit
  unfolding max_tps_of
  max_tps_of-positive wf limit = ground arith

  -- The factor from ticks per second to RPM.
  abbrev pub rpm_per_tps : ℤ → F
  rpm_per_tps ticks = lit (pos 60) 0 ⊘ of_int (max_ℤ (pos 1) ticks)

  factor_bounds :
      IsRounding F
      → (ticks : ℤ) → (nought ≼ rpm_per_tps ticks) × (rpm_per_tps ticks ≼ lit (pos 60) 0)
  factor_bounds laws ticks =
      let at = positive_max ticks in
      subst
        (λ a. (nought ≼ lit (pos 60) 0 ⊘ of_int a) × (lit (pos 60) 0 ⊘ of_int a ≼ lit (pos 60) 0))
        (sym at.1) (IsRounding.quotient_bounds laws 60 at.0 (omega arith))

  lround_within :
      IsOrdered F
      → IsRounding F
      → (low high : ℤ) (y : F) → IsExact low
      → IsExact high
      → of_int low ≼ y
      → y ≼ of_int high
      → (low ≤ℤ lround y) × (lround y ≤ℤ high)
  lround_within order laws low high y el eh above below =
      let r =
        IsRounding.lround_mono laws low high _ _ el eh (IsOrdered.refl_of_le order _ _ above).0
          above below in
      let s =
        IsRounding.lround_mono laws low high _ _ el eh above below
          (IsOrdered.refl_of_le order _ _ below).1 in
      (
        subst (λ a. a ≤ℤ lround y) (IsRounding.lround_int laws low el) r,
        subst (λ a. lround y ≤ℤ a) (IsRounding.lround_int laws high eh) s,
      )

  -- The speed that is sent for a number of ticks per second between two opposite ones.
  conversion :
      IsOrdered F
      → IsRounding F
      → (m : ℕ) (x k : F) → m ≤ 35_000_000
      → of_int (neg_ℤ (pos m)) ≼ x
      → x ≼ of_int (pos m)
      → nought ≼ k
      → k ≼ lit (pos 60) 0
      → let rpm = to_i32 (lround (x ⊗ k)) in
        (lround (of_int (neg_ℤ (pos m)) ⊗ k) ≤ℤ rpm)
        × (rpm ≤ℤ lround (of_int (pos m) ⊗ k))
        × (abs_ℕ rpm ≤ m * 60)
  conversion order laws m x k small low high pk kn =
      let lowest = neg_ℤ (pos (m * 60)) in
      let highest = pos (m * 60) in
      let exact_least : IsExact (neg_ℤ (pos m)) = ground (arith, small) in
      let exact_most : IsExact (pos m) = omega (arith, small) in
      let exact_low : IsExact lowest = ground (arith, small) in
      let exact_high : IsExact highest = omega (arith, small) in
      let (above, below) =
        IsRounding.mul_between laws (neg_ℤ (pos m)) (pos m) x k 60 (omega arith) exact_least
          exact_most low high pk kn in
      let bottom : of_int lowest ≼ of_int (neg_ℤ (pos m)) ⊗ k =
        subst (λ a. of_int (neg_ℤ (pos (a * 60))) ≼ of_int (neg_ℤ (pos m)) ⊗ k) (abs_ℕ-neg_ℤ m)
          (IsRounding.mul_range laws (neg_ℤ (pos m)) k 60 exact_least
            (rw (abs_ℕ-neg_ℤ m) (omega (arith, small))) pk kn).0 in
      let top : of_int (pos m) ⊗ k ≼ of_int highest =
        subst (λ a. of_int (pos m) ⊗ k ≼ of_int (pos (a * 60))) (abs_ℕ-pos m)
          (IsRounding.mul_range laws (pos m) k 60 exact_most
            (rw (abs_ℕ-pos m) (omega (arith, small))) pk kn).1 in
      let under = IsOrdered.le_trans order _ _ _ below top in
      let over = IsOrdered.le_trans order _ _ _ bottom above in
      let p =
        IsRounding.lround_mono laws lowest highest _ _ exact_low exact_high bottom above under in
      let q = IsRounding.lround_mono laws lowest highest _ _ exact_low exact_high over below top in
      let (r, s) =
        lround_within order laws lowest highest (x ⊗ k) exact_low exact_high over under in
      let size : abs_ℕ (lround (x ⊗ k)) ≤ m * 60 = within (lround (x ⊗ k)) (m * 60) r s in
      rw (to_i32_id (lround (x ⊗ k)) (omega (arith, size, small))) (p, q, size)

  sent_speed :
      IsOrdered F
      → IsRounding F
      → (m : ℤ) (x k : F) (near : Bool) → pos 0 ≤ℤ m
      → m ≤ℤ pos 35_000_000
      → nought ≼ k
      → k ≼ lit (pos 60) 0
      → let rpm =
          to_i32 (lround ((if near then nought else fclamp (of_int (neg_ℤ m)) (of_int m) x) ⊗ k)) in
        (lround (of_int (neg_ℤ m) ⊗ k) ≤ℤ rpm)
        × (rpm ≤ℤ lround (of_int m ⊗ k))
        × ((rpm ≡ pos 0) ⊎ (near ≡ false))
  sent_speed order laws (pos m) x k false p small pk kn =
      let (low, high) =
        fclamp_bounds order (of_int (neg_ℤ (pos m))) (of_int (pos m)) x
          (IsOrdered.of_int_mono order _ _ (opposite m)) in
      let (a, b, c) =
        conversion order laws m (fclamp (of_int (neg_ℤ (pos m))) (of_int (pos m)) x) k
          (omega (arith, small)) low high pk kn in
      (a, b, inr refl)
  sent_speed order laws (pos m) x k true p small pk kn =
      let mono = IsOrdered.of_int_mono order in
      let zero : F = of_int (pos 0) in
      let low : of_int (neg_ℤ (pos m)) ≼ zero = mono (neg_ℤ (pos m)) (pos 0) (ground arith) in
      let high : zero ≼ of_int (pos m) = mono (pos 0) (pos m) (omega arith) in
      let still : zero ≼ zero = mono (pos 0) (pos 0) (omega arith) in
      let (a, b, _) = conversion order laws m zero k (omega (arith, small)) low high pk kn in
      let (_, _, c) = conversion order laws 0 zero k (omega arith) still still pk kn in
      rw (IsOrdered.nought_lem order) (a, b, inl (nothing (to_i32 (lround (zero ⊗ k))) c))
  sent_speed order laws (negsuc m) x k near p small pk kn = absurd (omega (arith, p))

  -- With numbers ordered, multiplied and rounded as IEEE 754 and cmath document, and a speed
  -- limit of at most 35 million ticks per second as max_tps_of takes it from the parameter and
  -- the waveform: whatever the error of the position, the gain and the feed-forward are, NaN
  -- included, the velocity of a position command lies between the rounded RPM of the limit
  -- backwards and forwards, without a wrap-around; and it is 0, or a position waveform is
  -- running and not finished, or the target is more than 3 ticks away.
  pub position_speed_bounds :
      IsOrdered F
      → IsRounding F
      → (wf : WaveformConfig F) (now current requested limit : ℤ) (gain : F) (ticks : ℤ)
        (state : PositionControlState)
      → let most = max_tps_of wf limit in
        most ≤ℤ pos 35_000_000
        → let cmd =
            (compute_position_csv_command wf now current requested limit gain ticks state).0 in
          (lround (of_int (neg_ℤ most) ⊗ rpm_per_tps ticks) ≤ℤ cmd.target_rpm)
          × (cmd.target_rpm ≤ℤ lround (of_int most ⊗ rpm_per_tps ticks))
          × ((cmd.target_rpm ≡ pos 0)
              ⊎ ((cmd.wave_active ≡ true) × (cmd.wave_finished ≡ false))
              ⊎ (pos 3 <ℤ abs_i32 (to_i32 (cmd.target_pos -ℤ current))))
  unfolding compute_position_csv_command
  position_speed_bounds order laws wf now current requested limit gain ticks state small =
      let most = max_tps_of wf limit in
      let goal = position_goal wf now current requested state in
      let error = to_i32 (goal.target_pos -ℤ current) in
      let active = is_position_sine wf.type in
      let near = (not active || goal.finished) && le_ℤ (abs_i32 error) (pos 3) in
      let (pk, kn) = factor_bounds laws ticks in
      let above = max_tps_of-positive wf limit in
      let (low, high, rest) =
        sent_speed order laws most (of_int error ⊗ gain ⊕ goal.feed_forward) (rpm_per_tps ticks)
          near (omega (arith, above)) small pk kn in
      (
        low,
        high,
        elim rest [
          | inl stopped ↦ inl stopped
          | inr going ↦ inr (far_or_running active goal.finished (abs_i32 error) going)
        ],
      )
