-- ===== src/Node/Step/Silence.antt =====
-- A motor that is stopped by a silence, over any sequence of events.
use motor_control.Base.{
  ℕ, refl, ◌≢◌, ◌<◌, ◌^◌, abs_ℕ, ℤ, List, [], ◌∷◌, true, false, none, All, arith,
}
use motor_control.Double.{Double}
use motor_control.Commands.Reader.{TextReader}
use motor_control.Ethercat.Pdo.{InPdo}
use motor_control.Node.State.{Node}
use motor_control.Node.Silence.{Silence, Holds, IsAfter, IsStopped, Calm-IsStopped}
use motor_control.Node.Commands.{Outside}
use motor_control.Node.Topics.Calm.{settings-Calm, values-Calm}
use motor_control.Node.Topics.Silence.{
  target-IsStopped, heartbeat-IsStopped, disable-IsStopped, enable-IsStopped,
}
use motor_control.Node.Commands.Untouched.{
  handle_waveform_msg-Untouched, handle_waveform_cmd-Untouched,
}
use motor_control.Node.ForceCommands.Spares.{force_msg-Calm, force_text-Calm}
use motor_control.Node.LogCommands.Untouched.{handle_log_cmd-Untouched}
use motor_control.Node.Feedback.Untouched.{timers-Untouched}
use motor_control.Node.Cycle.Timing.{CycleTime}
use motor_control.Node.Cycle.Safe.{good_round}
use motor_control.Node.Cycle.Silence.{good_round-IsStopped, rt_cycle-IsStopped}
use motor_control.Node.Cycle.{rt_cycle}
use motor_control.Node.Step.{Event, step, run}

module _ {F : Type 0} ⦃d : Double F⦄ (reader : TextReader F) (outside : Outside) where
  -- An event without the missing message; a round is not before the time and the clock below 2^62.
  abbrev pub IsSilent : Silence → ℤ → Event F → Type 0
  IsSilent s since (Event.target_speed now v) = s ≢ Silence.no_target
  IsSilent s since (Event.target_position now v) = s ≢ Silence.no_target
  IsSilent s since (Event.target_torque now v) = s ≢ Silence.no_target
  IsSilent s since (Event.heartbeat now) = s ≢ Silence.no_heartbeat
  IsSilent s since (Event.enable true) = s ≢ Silence.no_enable
  IsSilent s since (Event.cycle input) = IsAfter since input.time.now_ns
  IsSilent s since _ = Unit

  step-IsStopped :
      (s : Silence) (since : ℤ) (e : Event F) (n : Node F)
      → IsSilent s since e
      → IsStopped s since n
      → IsStopped s since (step reader outside e n)
  unfolding step
  step-IsStopped s since (Event.target_speed now v) n b h = (target-IsStopped s since now v n b h).0
  step-IsStopped s since (Event.target_position now v) n b h =
      (target-IsStopped s since now v n b h).1
  step-IsStopped s since (Event.target_torque now v) n b h =
      (target-IsStopped s since now v n b h).2
  step-IsStopped s since (Event.heartbeat now) n b h = heartbeat-IsStopped s since now n b h
  step-IsStopped s since (Event.enable true) n b h = enable-IsStopped s since true n b h
  step-IsStopped s since (Event.enable false) n b h = disable-IsStopped s since n h
  step-IsStopped s since (Event.cycle input) n b h = rt_cycle-IsStopped s since input n b h
  step-IsStopped s since (Event.linear_count now v) n b h =
      Calm-IsStopped s since n _ (settings-Calm now v n).3 h
  step-IsStopped s since (Event.op_mode_cmd v) n b h =
      Calm-IsStopped s since n _ (settings-Calm v v n).0 h
  step-IsStopped s since (Event.accel_limit v) n b h =
      Calm-IsStopped s since n _ (settings-Calm v v n).1 h
  step-IsStopped s since (Event.pos_speed_limit v) n b h =
      Calm-IsStopped s since n _ (settings-Calm v v n).2 h
  step-IsStopped s since (Event.force_ch0 now v) n b h =
      Calm-IsStopped s since n _ (values-Calm now v n).0 h
  step-IsStopped s since (Event.force_ch1 now v) n b h =
      Calm-IsStopped s since n _ (values-Calm now v n).1 h
  step-IsStopped s since (Event.linear_mm now v) n b h =
      Calm-IsStopped s since n _ (values-Calm now v n).2 h
  step-IsStopped s since (Event.target_force v) n b h =
      Calm-IsStopped s since n _ (values-Calm since v n).3 h
  step-IsStopped s since Event.fault_reset n b h =
      Calm-IsStopped s since n _ (settings-Calm since since n).4 h
  step-IsStopped s since (Event.waveform_msg now msg) n b h =
      Calm-IsStopped s since n _ (handle_waveform_msg-Untouched outside now msg n).calm h
  step-IsStopped s since (Event.waveform_cmd now cmd) n b h =
      Calm-IsStopped s since n _ (handle_waveform_cmd-Untouched reader outside now cmd n).calm h
  step-IsStopped s since (Event.force_msg now msg) n b h =
      Calm-IsStopped s since n _ (force_msg-Calm reader now msg n) h
  step-IsStopped s since (Event.force_cmd now cmd) n b h =
      Calm-IsStopped s since n _ (force_text-Calm reader now cmd n) h
  step-IsStopped s since (Event.log_cmd now path cmd) n b h =
      Calm-IsStopped s since n _ (handle_log_cmd-Untouched reader outside now path cmd n).calm h
  step-IsStopped s since (Event.fault_log sdo) n b h =
      Calm-IsStopped s since n _ (timers-Untouched sdo n).0.calm h
  step-IsStopped s since Event.report_limit n b h =
      Calm-IsStopped s since n _ (timers-Untouched none n).1.calm h
  step-IsStopped s since Event.report_diag n b h =
      Calm-IsStopped s since n _ (timers-Untouched none n).2.calm h
  step-IsStopped s since Event.log_round n b h =
      Calm-IsStopped s since n _
        (record {
          out = refl;
          steady = record {
            params = refl;
            last_cmd_ns = refl;
            last_heartbeat_ns = refl;
            enable_req = refl;
          };
        })
        h

  run-IsStopped :
      (s : Silence) (since : ℤ) (es : List (Event F)) (n : Node F)
      → All (IsSilent s since) es
      → IsStopped s since n
      → IsStopped s since (run reader outside es n)
  unfolding run
  run-IsStopped s since [] n b h = h
  run-IsStopped s since (e ∷ es) n b h =
      run-IsStopped s since es (step reader outside e n) b.1 (step-IsStopped s since e n b.0 h)

  -- With one of three silences: the last target is older than a positive command timeout, the
  -- last heartbeat is older than a positive heartbeat timeout, each below 2^31 ms and after a
  -- message at a positive time, or the drive is not to be enabled. A round that exchanges
  -- process data then, at a time below 2^62 ns, and any sequence of events after it without the
  -- missing message, whose rounds are not before that time and also below 2^62 ns: the silence
  -- still holds, and the velocity and the torque for the drive are 0. Waveform and force
  -- commands are no target and end no silence.
  pub silence_stops :
      (s : Silence) (time : CycleTime) (w : ℕ) (i : InPdo) (n : Node F) (es : List (Event F))
      → Holds s time.now_ns n
      → abs_ℕ time.now_ns < 2 ^ 62
      → All (IsSilent s time.now_ns) es
      → IsStopped s time.now_ns (run reader outside es (rt_cycle (good_round time w i) n))
  silence_stops s time w i n es h small silent =
      run-IsStopped s time.now_ns es (rt_cycle (good_round time w i) n) silent
        (good_round-IsStopped s time.now_ns time w i n (omega arith, small) h)
