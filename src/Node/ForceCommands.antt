-- ===== src/Node/ForceCommands.antt =====
-- cpp/src/epos_control/src/epos_motor_node.cpp: apply_force_command and its two handlers.
pub mod Stop
pub mod Sound
pub mod Spares
pub mod Protocols
pub mod Logged
use Prim.Native.String.{String}
use text.Mathlib.Text.{◌==◌ as str_eq}
use motor_control.Base.{
  Bool, true, false, ◌||◌, not, ℤ, pos, negsuc, lt_ℤ, le_ℤ, eq_ℤ, max_ℤ, min_ℤ, if◌then◌else◌,
}
use motor_control.Double.{Double, ◌⊗◌, nought, fmax, fclamp}
use motor_control.Units.{n_to_mn}
use motor_control.Commands.Reader.{TextReader}
use motor_control.Commands.Waveform.{CommandError}
use motor_control.Commands.WaveformText.{ParseResult, parse_command}
use motor_control.Commands.Force.{
  ForceCommandKind, ForceCommand, ForceCtrlCmd, force_command_from_msg,
}
use motor_control.Commands.ForceText.{parse_force_ctrl}
use motor_control.Node.State.{Node, ForceControl}
use motor_control.Node.Commands.{set_force_wave, stop_force_wave}

-- `result.error_msg.empty()`
abbrev is_clean : CommandError → Bool
is_clean CommandError.no_error = true
is_clean _ = false

module _ {F : Type 0} where
  abbrev with_force : ForceControl F → Node F → Node F
  with_force force n = record n { force = force }

  -- STOP: force control, its waveform and the velocity.
  pub force_stop : Node F → Node F
  force_stop n = stop_force_wave (record n {
    force = record n.force { active = false };
    targets = record n.targets { target = pos 0 };
  })

  pub set_max_rpm : ℤ → Node F → Node F
  set_max_rpm rpm n =
      with_force (record n.force { max_rpm = max_ℤ (pos 1) (min_ℤ n.params.max_abs_target rpm) }) n

module _ {F : Type 0} ⦃d : Double F⦄ where
  open d use {lit}

  -- SET_TANH
  pub set_tanh : F → F → Node F → Node F
  set_tanh sens dead n =
      let sens_n = fclamp (lit (pos 1) 2) (lit (pos 50) 0) sens in
      let dead_n = fclamp nought (lit (pos 10) 0) dead in
      with_force
        (record n.force {
          tanh_sensitivity = fmax (lit (pos 1) 3) sens_n ⊗ lit (pos 1000) 0;
          tanh_deadband = fmax nought dead_n ⊗ lit (pos 1000) 0;
          ctrl_mode = pos 1;
        })
        n

  -- SET_TARE_OFFSET
  pub set_tare : ℤ → F → Node F → Node F
  set_tare channel offset n =
      let mn = n_to_mn (fclamp (lit (negsuc 99999) 0) (lit (pos 100000) 0) offset) in
      if eq_ℤ channel (pos 0)
      then record n { sensors = record n.sensors { tare_ch0_mn = mn } }
      else record n { sensors = record n.sensors { tare_ch1_mn = mn } }

  -- SET_LIMIT: a limit of 0 also releases a trip.
  pub set_limit : F → Node F → Node F
  set_limit limit n =
      let mn = n_to_mn (fmax nought limit) in
      record n {
        limit = record n.limit {
          limit_mn = mn;
          tripped = if le_ℤ mn (pos 0) then false else n.limit.tripped;
        };
      }

module _ {F : Type 0} ⦃d : Double F⦄ (reader : TextReader F) where
  open d use {lit}

  -- SET_WAVEFORM: the amplitude and the offset are in mN.
  pub set_waveform_payload : ℤ → String → Node F → Node F
  set_waveform_payload now payload n =
      let parsed = parse_command reader payload (pos 999999) now in
      if str_eq payload "" || str_eq payload "none" || str_eq payload "stop"
      then stop_force_wave n
      else if is_clean parsed.error
      then set_force_wave parsed.config n
      else n

  -- The switch of apply_force_command.
  pub force_switch : ForceCommandKind → ℤ → ForceCommand F → Node F → Node F
  unfolding force_stop set_max_rpm set_tanh set_tare set_limit set_waveform_payload
  force_switch ForceCommandKind.start now cmd n = with_force (record n.force { active = true }) n
  force_switch ForceCommandKind.stop now cmd n = force_stop n
  force_switch ForceCommandKind.set_target now cmd n =
      with_force (record n.force { target_force_mn = n_to_mn cmd.target_n }) n
  force_switch ForceCommandKind.set_direction now cmd n =
      with_force
        (record n.force { direction = if lt_ℤ cmd.direction (pos 0) then negsuc 0 else pos 1 }) n
  force_switch ForceCommandKind.set_feedback now cmd n =
      with_force (record n.force { feedback_mode = cmd.feedback_mode }) n
  force_switch ForceCommandKind.set_force_abs now cmd n =
      with_force (record n.force { abs_mode = not (eq_ℤ cmd.enabled (pos 0)) }) n
  force_switch ForceCommandKind.set_pid now cmd n =
      with_force (record n.force { kp = cmd.kp; ki = cmd.ki; kd = cmd.kd; ctrl_mode = pos 0 }) n
  force_switch ForceCommandKind.set_tanh now cmd n = set_tanh cmd.tanh_sens_n cmd.tanh_dead_n n
  force_switch ForceCommandKind.set_tare_offset now cmd n =
      set_tare cmd.tare_channel cmd.tare_offset_n n
  force_switch ForceCommandKind.tare_reset now cmd n = record n {
    sensors = record n.sensors { tare_ch0_mn = pos 0; tare_ch1_mn = pos 0 };
  }
  force_switch ForceCommandKind.set_max_rpm now cmd n = set_max_rpm cmd.max_rpm n
  force_switch ForceCommandKind.set_limit now cmd n = set_limit cmd.limit_n n
  force_switch ForceCommandKind.set_alpha now cmd n =
      with_force (record n.force { out_alpha = fclamp (lit (pos 1) 2) (lit (pos 1) 0) cmd.alpha }) n
  force_switch ForceCommandKind.set_waveform now cmd n =
      set_waveform_payload now cmd.waveform_payload n
  force_switch ForceCommandKind.invalid now cmd n = n
  force_switch ForceCommandKind.unknown now cmd n = n

  pub apply_force_command : ℤ → ForceCommand F → Node F → Node F
  unfolding force_switch
  apply_force_command now cmd n = force_switch cmd.kind now cmd n

  -- /epos/force_ctrl_cmd_v2
  pub handle_force_ctrl_msg : ℤ → ForceCtrlCmd F → Node F → Node F
  handle_force_ctrl_msg now msg n = apply_force_command now (force_command_from_msg msg) n

  -- /epos/force_ctrl_cmd
  pub handle_force_ctrl_cmd : ℤ → String → Node F → Node F
  handle_force_ctrl_cmd now cmd n = apply_force_command now (parse_force_ctrl reader cmd) n
