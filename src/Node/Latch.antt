-- ===== src/Node/Latch.antt =====
-- The force limit once it has been tripped: what a step must leave alone for the motor to stay
-- stopped.
use motor_control.Base.{◌≡◌, ◌∙◌, ap, true, ℤ, pos}
use motor_control.Node.State.{Node}

module _ {F : Type 0} where
  -- A step that writes nothing for the drive, does not release the limit and takes no reading of a
  -- load cell.
  pub record Spares (n m : Node F) : Type 0 where
    pub out : m.out ≡ n.out
    pub tripped : m.limit.tripped ≡ n.limit.tripped
    pub ch0 : m.sensors.force_ch0_ns ≡ n.sensors.force_ch0_ns
    pub ch1 : m.sensors.force_ch1_ns ≡ n.sensors.force_ch1_ns

  -- The limit is tripped, the last readings are of these times, and what is written for the drive
  -- asks for no motion.
  pub record IsLatched (last0 last1 : ℤ) (n : Node F) : Type 0 where
    pub tripped : n.limit.tripped ≡ true
    pub ch0 : n.sensors.force_ch0_ns ≡ last0
    pub ch1 : n.sensors.force_ch1_ns ≡ last1
    pub velocity : n.out.target_velocity ≡ pos 0
    pub torque : n.out.target_torque ≡ pos 0

  pub spared-IsLatched :
      (last0 last1 : ℤ) (n m : Node F)
      → Spares n m
      → IsLatched last0 last1 n
      → IsLatched last0 last1 m
  spared-IsLatched last0 last1 n m s h = record {
    tripped = s.tripped ∙ h.tripped;
    ch0 = s.ch0 ∙ h.ch0;
    ch1 = s.ch1 ∙ h.ch1;
    velocity = ap (λ o. o.target_velocity) s.out ∙ h.velocity;
    torque = ap (λ o. o.target_torque) s.out ∙ h.torque;
  }
