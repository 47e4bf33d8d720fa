-- ===== src/Node/Topics/Silence.antt =====
-- A message that is not the missing one leaves a stopped motor stopped.
use motor_control.Base.{◌≢◌, refl, false, Bool, ℤ, arith}
use motor_control.Node.State.{Node}
use motor_control.Node.Cycle.Mode.{enable_wanted}
use motor_control.Node.Silence.{Silence, IsStopped}
use motor_control.Node.Topics.{
  on_target_speed, on_target_position, on_target_torque, on_heartbeat, on_enable,
}

module _ {F : Type 0} where
  pub target-IsStopped :
      (s : Silence) (since now value : ℤ) (n : Node F)
      → s ≢ Silence.no_target
      → IsStopped s since n
      → IsStopped s since (on_target_speed now value n)
        × IsStopped s since (on_target_position now value n)
        × IsStopped s since (on_target_torque now value n)
  unfolding on_target_speed on_target_position on_target_torque enable_wanted
  target-IsStopped Silence.no_target since now value n other h = absurd (other refl)
  target-IsStopped s since now value n other h = (ground arith, ground arith, ground arith)

  pub heartbeat-IsStopped :
      (s : Silence) (since now : ℤ) (n : Node F)
      → s ≢ Silence.no_heartbeat
      → IsStopped s since n
      → IsStopped s since (on_heartbeat now n)
  unfolding on_heartbeat enable_wanted
  heartbeat-IsStopped Silence.no_heartbeat since now n other h = absurd (other refl)
  heartbeat-IsStopped s since now n other h = ground arith

  -- A message that asks for no enabling is silence about it.
  pub disable-IsStopped :
      (s : Silence) (since : ℤ) (n : Node F)
      → IsStopped s since n
      → IsStopped s since (on_enable false n)
  unfolding on_enable enable_wanted
  disable-IsStopped s since n h = ground arith

  pub enable-IsStopped :
      (s : Silence) (since : ℤ) (wanted : Bool) (n : Node F)
      → s ≢ Silence.no_enable
      → IsStopped s since n
      → IsStopped s since (on_enable wanted n)
  unfolding on_enable enable_wanted
  enable-IsStopped Silence.no_enable since wanted n other h = absurd (other refl)
  enable-IsStopped s since wanted n other h = ground arith
