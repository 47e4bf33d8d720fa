-- ===== src/Node/Life.antt =====
-- cpp/src/epos_control/src/epos_motor_node.cpp: the node with its bus, from the constructor over the
-- feedback timer to the destructor.
pub mod Recovery
pub mod Construct
use Prim.Native.String.{String}
use text.Mathlib.Text.{◌==◌ as str_eq}
use motor_control.Base.{ℕ, Bool, true, false, ℤ, pos, List, Option, none, some, if◌then◌else◌}
use motor_control.Double.{Double}
use motor_control.Ethercat.Master.{Soem, Bus, init_ethercat, recover, shut_down}
use motor_control.Logging.AsyncLogger.{stop}
use motor_control.Node.State.{Node}
use motor_control.Node.Start.{Options, start_node}
use motor_control.Node.Feedback.{
  core_feedback, handle_pending_fault_log, wkc_recovery_due, publish_force_limit_events,
}

-- What the constructor leaves: an object whose loop has not been started, or a running node.
pub data Built (F M : Type 0) : Type 0 where
  idle : Bus M → Built F M
  live : Node F → Bus M → Built F M

-- What publish_feedback publishes and reports.
pub record Report : Type 0 where
  pub values : List ℤ
  pub limit_event : Option (ℤ × ℤ × ℤ)

-- iface_.empty()
unfoldable pub has_no_interface : String → Bool
has_no_interface iface = str_eq iface ""

module _ {F M : Type 0} ⦃d : Double F⦄ (soem : Soem M) where
  -- EposNode(), with the times at which the loop may start; `m` is the state of the unopened master.
  unfoldable pub construct : String → Options F → ℤ → M → Built F M
  construct iface o now_ns m =
      let declared : Bus M = record {
        master = m;
        slave_index = o.slave_index;
        operational = false;
      } in
      let result = init_ethercat soem iface declared in
      let n = start_node o now_ns in
      if has_no_interface iface
      then Built.idle (record declared { slave_index = pos 1 })
      else if result.0
      then Built.live (record n { axis = record n.axis { slave_index = result.1.slave_index } })
          result.1
      else Built.idle result.1

  -- ~EposNode(), when the loop has ended: the node with its logger stopped, and the bus.
  unfoldable pub destroy : Built F M → Option (Node F) × M
  destroy (Built.idle b) = (none, shut_down soem b)
  destroy (Built.live n b) = (some (record n { logger = stop n.logger }), shut_down soem b)

module _ {F M : Type 0} (soem : Soem M) where
  -- handle_wkc_recovery
  unfoldable pub handle_wkc_recovery : Node F → M → M
  handle_wkc_recovery n m = if wkc_recovery_due n then recover soem m else m

  -- publish_feedback; the first argument is what ec_SDOread gives of the error code.
  unfoldable pub publish_feedback : Option ℕ → Node F → M → Report × Node F × M
  publish_feedback sdo n m =
      let logged = handle_pending_fault_log sdo n in
      let recovered = handle_wkc_recovery logged m in
      let (event, reported) = publish_force_limit_events logged in
      (record { values = core_feedback n; limit_event = event }, reported, recovered)
