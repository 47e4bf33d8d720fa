-- ===== src/Tests/Parts.antt =====
-- The theorems on the control laws, the guards, the commands and the drive.
use motor_control.Base.{
  ℕ, zero, suc, List, ◌≡◌, refl, ◌<◌, ◌+◌, ◌*◌, ◌⊎◌, ◌↔◌, true, pos, negsuc, ◌<ℤ◌, [], ◌∷◌, arith,
  some,
}
use motor_control.Double.{◌≼◌}
use motor_control.Double.Fixed.{Fixed, fixed_double, Fixed-IsOrdered}
use motor_control.Waveform.{WaveformConfig, WaveformType, default_config}
use motor_control.Safety.Output.{timeout_expired}
use motor_control.Safety.Output.Guard.{timeout_expired_iff}
use motor_control.Safety.ForceLimit.{check_force_limit, default_stale_ns}
use motor_control.Safety.ForceLimit.Trip.{IsOver, over_limit_iff}
use motor_control.Control.ForcePid.{ForcePid, default_pid, pid_compute}
use motor_control.Control.ForcePid.Bounds.{pid_bounds}
use motor_control.Ethercat.Axis.{DoubleBuffer, get_copy}
use motor_control.Commands.Waveform.{
  waveform_command_from_msg, waveform_type_from_msg, start_from_msg, start_wave,
}
use motor_control.Commands.Waveform.Ranges.{InRange, waveform_command_from_msg-InRange}
use motor_control.Node.Start.{empty_buffers}
use motor_control.Ring.{empty_ring, push}
use motor_control.Node.State.{Node}
use motor_control.Ethercat.Axis.{Move, copy_during}
use motor_control.Ethercat.Axis.Copy.{IsOneSet, switched_before, copy_during_lem}
use motor_control.Tests.Data.{sine_msg, started}

abbrev wave : WaveformConfig Fixed
wave = record default_config { type = WaveformType.sine }

abbrev buffers : DoubleBuffer Fixed
buffers = empty_buffers

waveform_command_from_msg-InRange_example :
    InRange (pos 3000) (waveform_command_from_msg sine_msg (pos 3000) (pos 7)).config
unfolding waveform_command_from_msg waveform_type_from_msg start_from_msg start_wave
waveform_command_from_msg-InRange_example =
    waveform_command_from_msg-InRange Fixed-IsOrdered sine_msg (pos 3000) (pos 7) (omega arith) refl

abbrev million : ℕ → Fixed
million n = some (pos (n * 1_000_000))

pid_bounds_example :
    let p : ForcePid Fixed = default_pid in
    let (output, q) = pid_compute p (million 50) (million 48) (some (pos 1000)) in
    (fixed_double.neg p.output_limit ≼ output)
    × (output ≼ p.output_limit)
    × (fixed_double.neg p.integral_limit ≼ q.integral)
    × (q.integral ≼ p.integral_limit)
pid_bounds_example =
    pid_bounds Fixed-IsOrdered default_pid (million 50) (million 48) (some (pos 1000)) refl refl
      refl (refl, refl)

-- A set between the load of the index and the first field.
abbrev one_set : ℕ → List (Move Fixed)
one_set zero = Move.write wave ∷ Move.switch ∷ []
one_set (suc k) = []

one_set-IsOneSet : (k : ℕ) → IsOneSet (switched_before one_set k) (one_set k)
one_set-IsOneSet zero = tt
one_set-IsOneSet (suc k) = tt

copy_during_lem_example : copy_during one_set buffers ≡ get_copy buffers
copy_during_lem_example = copy_during_lem one_set buffers (omega arith) one_set-IsOneSet

timeout_expired_iff_example :
    (timeout_expired (pos 600_000_001) (pos 1) (pos 500) ≡ true)
    ↔ ((pos 0 <ℤ pos 500) × (pos 0 <ℤ pos 1) × (500 * 1_000_000 + 1 + 0 < 600_000_001))
timeout_expired_iff_example =
    timeout_expired_iff (pos 600_000_001) (pos 1) (pos 500) (omega arith) (omega arith)
      (omega arith)

over_limit_iff_example :
    let check =
      check_force_limit (pos 100) (pos 50) (negsuc 150) (pos 3) (pos 40) (pos 0) default_stale_ns in
    (check.over_limit ≡ true) ↔ (
      (pos 0 <ℤ pos 100)
      × ((IsOver (pos 100) (pos 50) (negsuc 150) (pos 40))
          ⊎ (IsOver (pos 100) (pos 50) (pos 3) (pos 0))))
over_limit_iff_example =
    over_limit_iff (pos 100) (pos 50) (negsuc 150) (pos 3) (pos 40) (pos 0) (omega arith)
      (omega arith)

-- Two periods wait for the timer.
abbrev timed : Node Fixed
timed = record started {
  diag = record started.diag {
    diag_ring = push (push (empty_ring 2048 (pos 0)) (pos 900)) (pos 1100);
  };
}
