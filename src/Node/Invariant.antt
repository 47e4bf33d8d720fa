-- ===== src/Node/Invariant.antt =====
-- What holds of the node whatever happens to it.
use motor_control.Base.{◌≤◌, ◌≡◌, ◌⊎◌, true, pos, negsuc, ◌≤ℤ◌}
use motor_control.Node.State.{Node}
use motor_control.Node.Topics.{is_mode}

module _ {F : Type 0} where
  -- The modes are those of the drive that the program knows, the buffers' indices are in range, the
  -- direction of the force is a sign, its speed is positive, and the reset hold is at most 20 rounds.
  pub record IsSound (n : Node F) : Type 0 where
    pub op_mode : is_mode n.axis.op_mode ≡ true
    pub requested : is_mode n.targets.requested_op_mode ≡ true
    pub wf : n.axis.wf.active_idx ≤ 1
    pub force_wf : n.axis.force_wf.active_idx ≤ 1
    pub direction : (n.force.direction ≡ pos 1) ⊎ (n.force.direction ≡ negsuc 0)
    pub max_rpm : pos 1 ≤ℤ n.force.max_rpm
    pub hold : n.rt.fault_reset_hold ≤ 20
