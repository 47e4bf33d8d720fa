-- ===== src/Tests/Plans.antt =====
-- The theorems on the hysteresis plans, for a test of five cycles at 1 Hz.
use motor_control.Base.{pos, arith}
use motor_control.Double.Fixed.{fixed_double, Fixed-IsOrdered}
use motor_control.Double.Fixed.Monotone.{Fixed-IsMonotone}
use motor_control.Waveform.Hysteresis.{make_hyst_velocity_plan, make_hyst_position_plan}
use motor_control.Node.Start.{start_node}
use motor_control.Node.Commands.{start_hyst_sine, start_hyst_pos_sine}
use motor_control.Node.Commands.Hysteresis.{
  Outcome, position_test_targets, hyst_velocity-Outcome, hyst_position-Outcome,
}
use motor_control.Tests.Data.{velocity_test, position_test, started, outside}

hyst_velocity-Outcome_example :
    Outcome outside
      (make_hyst_velocity_plan velocity_test (pos 3000) (pos 7))
      (pos 7)
      (λ plan. started.targets)
      started
      (start_hyst_sine outside (pos 7) velocity_test started)
unfolding start_node
hyst_velocity-Outcome_example =
    hyst_velocity-Outcome Fixed-IsOrdered Fixed-IsMonotone outside (pos 7) velocity_test started
      (omega arith) (omega arith)

hyst_position-Outcome_example :
    Outcome outside
      (make_hyst_position_plan position_test (pos 7))
      (pos 7)
      (λ plan. position_test_targets plan started.targets)
      started
      (start_hyst_pos_sine outside (pos 7) position_test started)
unfolding start_node
hyst_position-Outcome_example =
    hyst_position-Outcome Fixed-IsOrdered Fixed-IsMonotone outside (pos 7) position_test started
      (omega arith) (omega arith)
