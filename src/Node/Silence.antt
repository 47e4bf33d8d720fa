-- ===== src/Node/Silence.antt =====
-- cpp/src/epos_control/src/epos_motor_node.cpp: a motor that is stopped because a message that it needs
-- does not come.
use motor_control.Base.{
  ◌≡◌, ◌∙◌, ap, ◌+◌, ◌*◌, ◌^◌, ◌<◌, true, false, ℤ, pos, negsuc, ◌≤ℤ◌, ◌<ℤ◌, abs_ℕ, pos_part,
  neg_part, arith,
}
use motor_control.Safety.Output.{timeout_expired}
use motor_control.Safety.Output.Guard.{timeout_expired_iff}
use motor_control.Ethercat.Pdo.{InPdo}
use motor_control.Double.{Double}
use motor_control.Node.State.{Node}
use motor_control.Node.Calm.{Steady, Calm}
use motor_control.Node.Cycle.Mode.{enable_wanted}
use motor_control.Node.Cycle.Safe.{MustStop}

-- The messages that may fail to come: a target, a heartbeat, the wish to enable the drive.
pub data Silence : Type 0 where
  no_target no_heartbeat no_enable : Silence

-- More than a positive timeout in ms lies between a message at a positive time and now.
abbrev pub IsPast : ℤ → ℤ → ℤ → Type 0
IsPast now last timeout =
    (pos 0 <ℤ timeout)
    × (pos 0 <ℤ last)
    × (pos_part timeout * 1_000_000 + pos_part last + neg_part now < pos_part now)
    × (abs_ℕ timeout < 2 ^ 31)

-- A time that is not before another, and of a size that the check can handle.
abbrev pub IsAfter : ℤ → ℤ → Type 0
IsAfter since now = (since ≤ℤ now) × (abs_ℕ now < 2 ^ 62)

past-expired :
    (since now last timeout : ℤ)
    → IsPast since last timeout
    → IsAfter since now
    → timeout_expired now last timeout ≡ true
past-expired since now (negsuc l) timeout past after = absurd (omega arith)
past-expired since (negsuc t) (pos l) timeout past after = absurd (omega arith)
past-expired since (pos t) (pos l) timeout past after =
    (timeout_expired_iff (pos t) (pos l) timeout (omega arith) (omega arith) (omega arith)).1
      (omega arith, omega arith, omega arith)

module _ {F : Type 0} where
  -- The message has not come for too long at a time, or the drive is not to be enabled.
  abbrev pub Holds : Silence → ℤ → Node F → Type 0
  Holds Silence.no_target since n = IsPast since n.targets.last_cmd_ns n.params.cmd_timeout_ms
  Holds Silence.no_heartbeat since n =
      IsPast since n.targets.last_heartbeat_ns n.params.heartbeat_timeout_ms
  Holds Silence.no_enable since n = enable_wanted n ≡ false

  -- The silence holds, and what is written for the drive asks for no motion.
  pub record IsStopped (s : Silence) (since : ℤ) (n : Node F) : Type 0 where
    pub silence : Holds s since n
    pub velocity : n.out.target_velocity ≡ pos 0
    pub torque : n.out.target_torque ≡ pos 0

  pub Steady-Holds :
      (s : Silence) (since : ℤ) (n m : Node F) → Steady n m → Holds s since n → Holds s since m
  unfolding enable_wanted
  Steady-Holds Silence.no_target since n m k h = rw (k.params, k.last_cmd_ns) h
  Steady-Holds Silence.no_heartbeat since n m k h = rw (k.params, k.last_heartbeat_ns) h
  Steady-Holds Silence.no_enable since n m k h = rw (k.params, k.enable_req) h

  pub Calm-IsStopped :
      (s : Silence) (since : ℤ) (n m : Node F)
      → Calm n m
      → IsStopped s since n
      → IsStopped s since m
  Calm-IsStopped s since n m c h = record {
    silence = Steady-Holds s since n m c.steady h.silence;
    velocity = ap (λ o. o.target_velocity) c.out ∙ h.velocity;
    torque = ap (λ o. o.target_torque) c.out ∙ h.torque;
  }

module _ {F : Type 0} ⦃d : Double F⦄ where
  pub holds-MustStop :
      (s : Silence) (since now : ℤ) (i : InPdo) (n : Node F)
      → Holds s since n
      → IsAfter since now
      → MustStop now i n
  holds-MustStop Silence.no_target since now i n h after =
      MustStop.command
        (past-expired since now n.targets.last_cmd_ns n.params.cmd_timeout_ms h after)
  holds-MustStop Silence.no_heartbeat since now i n h after =
      MustStop.heartbeat
        (past-expired since now n.targets.last_heartbeat_ns n.params.heartbeat_timeout_ms h after)
  holds-MustStop Silence.no_enable since now i n h after = MustStop.disabled h
