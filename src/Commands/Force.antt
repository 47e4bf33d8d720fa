-- ===== src/Commands/Force.antt =====
-- cpp/src/epos_control/include/commands/command_parsing.hpp: force commands, and the v2 message
-- ForceCtrlCmd as a command. `feedback_label`, which only the log prints, is left out.
use Prim.Native.String.{String}
use motor_control.Base.{
  ℕ, Bool, ◌&&◌, ◌||◌, not, ℤ, pos, negsuc, lt_ℤ, eq_ℤ, ◌==◌, ltb, if◌then◌else◌,
}
use motor_control.Double.{Double, nought, fmax, fclamp}

-- enum class ForceCommandKind
pub data ForceCommandKind : Type 0 where
  unknown invalid start stop set_target set_direction set_feedback set_force_abs : ForceCommandKind
  set_pid set_tanh set_tare_offset tare_reset set_max_rpm set_limit set_alpha : ForceCommandKind
  set_waveform : ForceCommandKind

-- struct ForceCommand; the text of an error is that of the kind of command that failed.
pub record ForceCommand (F : Type 0) : Type 0 where
  pub kind : ForceCommandKind
  pub target_n : F
  pub direction : ℤ
  pub feedback_mode : ℤ
  pub enabled : ℤ
  pub kp : F
  pub ki : F
  pub kd : F
  pub tanh_sens_n : F
  pub tanh_dead_n : F
  pub tare_channel : ℤ
  pub tare_offset_n : F
  pub max_rpm : ℤ
  pub limit_n : F
  pub alpha : F
  pub waveform_payload : String

-- epos_interfaces/msg/ForceCtrlCmd
pub record ForceCtrlCmd (F : Type 0) : Type 0 where
  pub action : ℕ
  pub target_n : F
  pub direction : ℤ
  pub feedback : ℕ
  pub max_rpm : ℤ
  pub output_alpha : F
  pub kp : F
  pub ki : F
  pub kd : F
  pub tanh_sensitivity_n : F
  pub tanh_deadband_n : F
  pub limit_n : F
  pub force_abs : Bool
  pub tare_channel : ℤ
  pub tare_offset_n : F

-- std::max(0, std::min(3, feedback)) of a uint8
abbrev clamp_feedback : ℕ → ℤ
clamp_feedback feedback = if ltb feedback 3 then pos feedback else pos 3

module _ {F : Type 0} ⦃d : Double F⦄ where
  open d use {lit, is_finite}

  -- ForceCommand{}
  abbrev pub no_force_command : ForceCommand F
  no_force_command = record {
    kind = ForceCommandKind.unknown;
    target_n = nought;
    direction = pos 1;
    feedback_mode = pos 0;
    enabled = pos 1;
    kp = lit (pos 5) 1;
    ki = lit (pos 5) 2;
    kd = lit (pos 1) 2;
    tanh_sens_n = lit (pos 1) 0;
    tanh_dead_n = lit (pos 1) 2;
    tare_channel = negsuc 0;
    tare_offset_n = nought;
    max_rpm = pos 100;
    limit_n = nought;
    alpha = lit (pos 3) 1;
    waveform_payload = "";
  }

  abbrev pub of_kind : ForceCommandKind → ForceCommand F
  of_kind kind = record no_force_command { kind = kind }

  abbrev pub clamp_gain : F → F
  clamp_gain = fclamp nought (lit (pos 1000) 0)

  -- The cases of the switch whose parameters are checked to be finite.
  unfoldable pub set_target_msg : ForceCtrlCmd F → ForceCommand F
  set_target_msg msg =
      if is_finite msg.target_n
      then record (of_kind ForceCommandKind.set_target) { target_n = fmax nought msg.target_n }
      else of_kind ForceCommandKind.invalid

  unfoldable pub set_pid_msg : ForceCtrlCmd F → ForceCommand F
  set_pid_msg msg =
      if not (is_finite msg.kp) || not (is_finite msg.ki) || not (is_finite msg.kd)
      then of_kind ForceCommandKind.invalid
      else record (of_kind ForceCommandKind.set_pid) {
        kp = clamp_gain msg.kp;
        ki = clamp_gain msg.ki;
        kd = clamp_gain msg.kd;
      }

  unfoldable pub set_tanh_msg : ForceCtrlCmd F → ForceCommand F
  set_tanh_msg msg =
      if not (is_finite msg.tanh_sensitivity_n) || not (is_finite msg.tanh_deadband_n)
      then of_kind ForceCommandKind.invalid
      else record (of_kind ForceCommandKind.set_tanh) {
        tanh_sens_n = fclamp (lit (pos 1) 2) (lit (pos 50) 0) msg.tanh_sensitivity_n;
        tanh_dead_n = fclamp nought (lit (pos 10) 0) msg.tanh_deadband_n;
      }

  unfoldable pub set_tare_msg : ForceCtrlCmd F → ForceCommand F
  set_tare_msg msg =
      if (not (eq_ℤ msg.tare_channel (pos 0)) && not (eq_ℤ msg.tare_channel (pos 1)))
        || not (is_finite msg.tare_offset_n)
      then of_kind ForceCommandKind.invalid
      else record (of_kind ForceCommandKind.set_tare_offset) {
        tare_channel = msg.tare_channel;
        tare_offset_n = fclamp (lit (negsuc 99999) 0) (lit (pos 100000) 0) msg.tare_offset_n;
      }

  unfoldable pub set_limit_msg : ForceCtrlCmd F → ForceCommand F
  set_limit_msg msg =
      if is_finite msg.limit_n
      then record (of_kind ForceCommandKind.set_limit) { limit_n = fmax nought msg.limit_n }
      else of_kind ForceCommandKind.invalid

  unfoldable pub set_alpha_msg : ForceCtrlCmd F → ForceCommand F
  set_alpha_msg msg =
      if is_finite msg.output_alpha
      then record (of_kind ForceCommandKind.set_alpha) {
        alpha = fclamp (lit (pos 1) 2) (lit (pos 1) 0) msg.output_alpha;
      }
      else of_kind ForceCommandKind.invalid

  unfoldable pub force_command_from_msg : ForceCtrlCmd F → ForceCommand F
  unfolding set_target_msg set_pid_msg set_tanh_msg set_tare_msg set_limit_msg set_alpha_msg
  force_command_from_msg msg =
      if msg.action == 1
      then of_kind ForceCommandKind.start
      else if msg.action == 2
      then of_kind ForceCommandKind.stop
      else if msg.action == 3
      then set_target_msg msg
      else if msg.action == 4
      then record (of_kind ForceCommandKind.set_direction) {
        direction = if lt_ℤ msg.direction (pos 0) then negsuc 0 else pos 1;
      }
      else if msg.action == 5
      then record (of_kind ForceCommandKind.set_feedback) {
        feedback_mode = clamp_feedback msg.feedback;
      }
      else if msg.action == 6
      then set_pid_msg msg
      else if msg.action == 7
      then set_tanh_msg msg
      else if msg.action == 8
      then record (of_kind ForceCommandKind.set_max_rpm) { max_rpm = msg.max_rpm }
      else if msg.action == 9
      then set_alpha_msg msg
      else if msg.action == 10
      then set_limit_msg msg
      else if msg.action == 11
      then record (of_kind ForceCommandKind.set_force_abs) {
        enabled = if msg.force_abs then pos 1 else pos 0;
      }
      else if msg.action == 12
      then set_tare_msg msg
      else if msg.action == 13
      then of_kind ForceCommandKind.tare_reset
      else of_kind ForceCommandKind.invalid
