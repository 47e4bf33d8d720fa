-- ===== src/Node/Life/Construct.antt =====
-- cpp/src/epos_control/src/epos_motor_node.cpp: what a constructed node can rely on.
use Prim.Native.String.{String}
use motor_control.Base.{◌≡◌, true, false, pos, ℤ, le_ℤ, arith}
use motor_control.Double.{Double}
use motor_control.Ethercat.Master.{Soem, Bus}
use motor_control.Ethercat.Master.StartUp.{IsDocumented, init_ethercat-slave}
use motor_control.Node.State.{Node}
use motor_control.Node.Start.{Options}
use motor_control.Node.Invariant.{IsSound}
use motor_control.Node.Step.Sound.{start_node-IsSound}
use motor_control.Node.Life.{Built, construct}

module _ {F M : Type 0} ⦃d : Double F⦄ (soem : Soem M) where
  -- With a master as it is documented: a node whose loop runs after its construction is sound,
  -- its flag is set, its bus is in the operational state, and its number of the slave is the
  -- bus's and at least 1.
  pub construct_lem :
      IsDocumented soem
      → (iface : String) (o : Options F) (now : ℤ) (m : M) (n : Node F) (b : Bus M)
      → construct soem iface o now m ≡ Built.live n b
      → IsSound n
        × (b.operational ≡ true)
        × (soem.state b.master ≡ soem.state_operational)
        × (n.axis.slave_index ≡ b.slave_index)
        × (le_ℤ (pos 1) b.slave_index ≡ true)
  unfolding construct
  construct_lem doc iface o now m n b e =
      let declared : Bus M = record {
        master = m;
        slave_index = o.slave_index;
        operational = false;
      } in
      let up = init_ethercat-slave soem doc iface declared in
      let sound = start_node-IsSound o now in
      (
        ground (arith, sound),
        ground (arith, up.0),
        ground (arith, up.0),
        ground (arith, up.0),
        ground (arith, up.0),
      )
