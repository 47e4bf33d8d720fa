-- ===== src/Node/Step/Latch.antt =====
-- A tripped force limit over any sequence of events.
use motor_control.Base.{ℕ, ℤ, ◌≢◌, pos, List, [], ◌∷◌, refl, true, none, All, arith}
use motor_control.Double.{Double}
use motor_control.Commands.Reader.{TextReader}
use motor_control.Commands.Force.{ForceCommandKind, force_command_from_msg}
use motor_control.Commands.ForceText.{parse_force_ctrl}
use motor_control.Node.State.{Node}
use motor_control.Node.Latch.{Spares, IsLatched, spared-IsLatched}
use motor_control.Node.Commands.{Outside}
use motor_control.Node.Topics.Spares.{
  targets-Spares, settings-Spares, services-Spares, values-Spares,
}
use motor_control.Node.Commands.Untouched.{
  handle_waveform_msg-Untouched, handle_waveform_cmd-Untouched,
}
use motor_control.Node.ForceCommands.Spares.{
  handle_force_ctrl_msg-Spares, handle_force_ctrl_cmd-Spares,
}
use motor_control.Node.LogCommands.Untouched.{handle_log_cmd-Untouched}
use motor_control.Node.Feedback.Untouched.{timers-Untouched}
use motor_control.Ethercat.Pdo.{InPdo}
use motor_control.Node.Cycle.Timing.{CycleTime}
use motor_control.Node.Cycle.Safe.{good_round}
use motor_control.Node.Cycle.{rt_cycle}
use motor_control.Node.Cycle.Latch.{IsStale, Exceeds, rt_cycle-IsLatched, trip-IsLatched}
use motor_control.Node.Step.{Event, step, run}

module _ {F : Type 0} ⦃d : Double F⦄ (reader : TextReader F) (outside : Outside)
    (last0 last1 : ℤ) where
  -- An event that brings no reading of a load cell and does not set the limit; at a round, the last
  -- readings are no longer recent.
  abbrev pub IsBlind : Event F → Type 0
  IsBlind (Event.force_ch0 now v) = ⊥
  IsBlind (Event.force_ch1 now v) = ⊥
  IsBlind (Event.force_msg now msg) = (force_command_from_msg msg).kind ≢ ForceCommandKind.set_limit
  IsBlind (Event.force_cmd now cmd) =
      (parse_force_ctrl reader cmd).kind ≢ ForceCommandKind.set_limit
  IsBlind (Event.cycle input) = IsStale last0 last1 input.time.now_ns
  IsBlind _ = Unit

  step-Spares :
      (e : Event F) (n : Node F)
      → IsBlind e
      → ((x : _) → e ≢ Event.cycle x)
      → Spares n (step reader outside e n)
  unfolding step
  step-Spares (Event.target_speed now v) n b c = (targets-Spares now v n).0
  step-Spares (Event.target_position now v) n b c = (targets-Spares now v n).1
  step-Spares (Event.target_torque now v) n b c = (targets-Spares now v n).2
  step-Spares (Event.linear_count now v) n b c = (targets-Spares now v n).3
  step-Spares (Event.op_mode_cmd v) n b c = (settings-Spares v n).0
  step-Spares (Event.accel_limit v) n b c = (settings-Spares v n).1
  step-Spares (Event.pos_speed_limit v) n b c = (settings-Spares v n).2
  step-Spares (Event.heartbeat now) n b c = (settings-Spares now n).3
  step-Spares (Event.force_ch0 now v) n b c = elim b [ ]
  step-Spares (Event.force_ch1 now v) n b c = elim b [ ]
  step-Spares (Event.linear_mm now v) n b c = (values-Spares now v n).0
  step-Spares (Event.target_force v) n b c = (values-Spares (pos 0) v n).1
  step-Spares (Event.enable wanted) n b c = (services-Spares wanted n).0
  step-Spares Event.fault_reset n b c = (services-Spares true n).1
  step-Spares (Event.waveform_msg now msg) n b c =
      (handle_waveform_msg-Untouched outside now msg n).spares
  step-Spares (Event.waveform_cmd now cmd) n b c =
      (handle_waveform_cmd-Untouched reader outside now cmd n).spares
  step-Spares (Event.force_msg now msg) n b c = handle_force_ctrl_msg-Spares reader now msg n b
  step-Spares (Event.force_cmd now cmd) n b c = handle_force_ctrl_cmd-Spares reader now cmd n b
  step-Spares (Event.log_cmd now path cmd) n b c =
      (handle_log_cmd-Untouched reader outside now path cmd n).spares
  step-Spares (Event.fault_log sdo) n b c = (timers-Untouched sdo n).0.spares
  step-Spares Event.report_limit n b c = (timers-Untouched none n).1.spares
  step-Spares Event.report_diag n b c = (timers-Untouched none n).2.spares
  step-Spares Event.log_round n b c = record { out = refl; tripped = refl; ch0 = refl; ch1 = refl }
  step-Spares (Event.cycle input) n b c = absurd (c input refl)

  step-IsLatched :
      (e : Event F) (n : Node F)
      → IsBlind e
      → IsLatched last0 last1 n
      → IsLatched last0 last1 (step reader outside e n)
  unfolding step
  step-IsLatched (Event.cycle input) n b h = rt_cycle-IsLatched last0 last1 input n b h
  step-IsLatched e n b h =
      spared-IsLatched last0 last1 n _ (step-Spares e n b (λ x. ground arith)) h

  run-IsLatched :
      (es : List (Event F)) (n : Node F)
      → All IsBlind es
      → IsLatched last0 last1 n
      → IsLatched last0 last1 (run reader outside es n)
  unfolding run
  run-IsLatched [] n b h = h
  run-IsLatched (e ∷ es) n b h =
      run-IsLatched es (step reader outside e n) b.1 (step-IsLatched e n b.0 h)

module _ {F : Type 0} ⦃d : Double F⦄ (reader : TextReader F) (outside : Outside) where
  -- Once a round that exchanges process data has found a recent force over the limit, both
  -- channels being below 2^31 mN in magnitude: as long as no reading of a load cell comes, the
  -- last readings are not recent at any later round and no force command sets the limit, the
  -- limit stays tripped and the velocity and the torque for the drive stay 0, whatever other
  -- commands, timers and rounds follow, in any order.
  pub trip_lasts :
      (time : CycleTime) (w : ℕ) (i : InPdo) (n : Node F) (es : List (Event F))
      → Exceeds time.now_ns n
      → All (IsBlind reader outside n.sensors.force_ch0_ns n.sensors.force_ch1_ns) es
      → IsLatched n.sensors.force_ch0_ns n.sensors.force_ch1_ns
          (run reader outside es (rt_cycle (good_round time w i) n))
  trip_lasts time w i n es over blind =
      run-IsLatched reader outside n.sensors.force_ch0_ns n.sensors.force_ch1_ns es
        (rt_cycle (good_round time w i) n) blind (trip-IsLatched time w i n over)
