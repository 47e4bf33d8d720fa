-- ===== src/Node/Calm.antt =====
-- cpp/src/epos_control/src/epos_motor_node.cpp: what the callbacks leave alone, apart from those that
-- are meant to change it.
use motor_control.Base.{◌≡◌}
use motor_control.Node.State.{Node}
use motor_control.Node.Latch.{Spares}

module _ {F : Type 0} where
  -- A step that does not touch what the timeouts and the enabling of the drive depend on.
  pub record Steady (n m : Node F) : Type 0 where
    pub params : m.params ≡ n.params
    pub last_cmd_ns : m.targets.last_cmd_ns ≡ n.targets.last_cmd_ns
    pub last_heartbeat_ns : m.targets.last_heartbeat_ns ≡ n.targets.last_heartbeat_ns
    pub enable_req : m.targets.enable_req ≡ n.targets.enable_req

  -- Such a step that writes nothing for the drive.
  pub record Calm (n m : Node F) : Type 0 where
    pub out : m.out ≡ n.out
    pub steady : Steady n m

  -- A step that neither a tripped limit nor a silence notices.
  pub record Untouched (n m : Node F) : Type 0 where
    pub spares : Spares n m
    pub calm : Calm n m
