-- ===== src/Node/Cycle/Kept.antt =====
-- What the stages of a round leave alone.
use motor_control.Base.{◌≡◌, ◌∙◌, ℤ, arith}
use motor_control.Double.{Double}
use motor_control.Ethercat.Pdo.{InPdo}
use motor_control.Node.State.{Node}
use motor_control.Node.Cycle.Mode.{read_drive, on_fault_edge, switch_mode, wave_mode}
use motor_control.Node.Cycle.Command.{
  Frame, position_command, velocity_command, torque_command, mode_command,
}
use motor_control.Node.Cycle.Force.{
  limit_stage, force_start, force_keep, force_command, force_control_stage, limit_check,
}
use motor_control.Node.Cycle.{prepare}
use motor_control.Control.Force.{ForceFeedbackSelection}

-- The parameters, the sensors, and what the output guard and the control word
-- read of the targets and of the real-time state, and the logger.
pub record Kept {F : Type 0} (n m : Node F) : Type 0 where
  pub params : m.params ≡ n.params
  pub sensors : m.sensors ≡ n.sensors
  pub limit : m.limit ≡ n.limit
  pub last_cmd_ns : m.targets.last_cmd_ns ≡ n.targets.last_cmd_ns
  pub last_heartbeat_ns : m.targets.last_heartbeat_ns ≡ n.targets.last_heartbeat_ns
  pub enable_req : m.targets.enable_req ≡ n.targets.enable_req
  pub fault_reset_req : m.targets.fault_reset_req ≡ n.targets.fault_reset_req
  pub hold : m.rt.fault_reset_hold ≡ n.rt.fault_reset_hold
  pub logger : m.logger ≡ n.logger

module _ {F : Type 0} where
  pub Kept-trans : {n m k : Node F} → Kept n m → Kept m k → Kept n k
  Kept-trans a b = record {
    params = b.params ∙ a.params;
    sensors = b.sensors ∙ a.sensors;
    limit = b.limit ∙ a.limit;
    last_cmd_ns = b.last_cmd_ns ∙ a.last_cmd_ns;
    last_heartbeat_ns = b.last_heartbeat_ns ∙ a.last_heartbeat_ns;
    enable_req = b.enable_req ∙ a.enable_req;
    fault_reset_req = b.fault_reset_req ∙ a.fault_reset_req;
    hold = b.hold ∙ a.hold;
    logger = b.logger ∙ a.logger;
  }

  read_drive-Kept : (i : InPdo) (n : Node F) → Kept n (read_drive i n)
  unfolding read_drive
  read_drive-Kept i n = ground arith

  wave_mode-Kept : (n : Node F) → Kept n (wave_mode n)
  unfolding wave_mode
  wave_mode-Kept n = ground arith

module _ {F : Type 0} ⦃d : Double F⦄ where
  on_fault_edge-Kept : (i : InPdo) (n : Node F) → Kept n (on_fault_edge i n)
  unfolding on_fault_edge
  on_fault_edge-Kept i n = ground arith

  switch_mode-Kept : (i : InPdo) (n : Node F) → Kept n (switch_mode i n)
  unfolding switch_mode
  switch_mode-Kept i n = ground arith

  pub prepare-Kept : (i : InPdo) (n : Node F) → Kept n (prepare i n)
  unfolding prepare
  prepare-Kept i n =
      let n1 = read_drive i n in
      let n2 = on_fault_edge i n1 in
      let n3 = switch_mode i n2 in
      Kept-trans (read_drive-Kept i n) (
        Kept-trans (on_fault_edge-Kept i n1)
          (Kept-trans (switch_mode-Kept i n2) (wave_mode-Kept n3)))

  pub mode_command-Kept :
      (now dt : ℤ) (i : InPdo) (f : Frame F) → Kept f.node (mode_command now dt i f).node
  unfolding mode_command position_command velocity_command torque_command
  mode_command-Kept now dt i f = ground arith

  pub force_control_stage-Kept :
      (now dt : ℤ) (s : ForceFeedbackSelection) (i : InPdo) (f : Frame F)
      → Kept f.node (force_control_stage now dt s i f).node
  unfolding force_control_stage force_start force_keep force_command
  force_control_stage-Kept now dt s i f = ground arith

  -- The limit stage changes the limit, one target and the velocity of the next round.
  pub limit_stage-Kept :
      (now : ℤ) (n : Node F) → Kept n (record (limit_stage now n) { limit = n.limit })
  unfolding limit_stage
  limit_stage-Kept now n = ground arith

  -- The limit check of a node depends on what is kept.
  pub limit_check-Kept : (now : ℤ) (n m : Node F) → Kept n m → limit_check now m ≡ limit_check now n
  unfolding limit_check
  limit_check-Kept now n m k = cc (k.limit, k.sensors)
