-- ===== src/Node/Commands/Hysteresis.antt =====
-- cpp/src/epos_control/src/epos_motor_node.cpp: start_hyst_sine and start_hyst_pos_sine. A test starts as a
-- whole or does not touch the motor.
use motor_control.Base.{
  ◌≡◌, ◌≤◌, ◌<◌, ◌^◌, ◌⊎◌, inl, inr, refl, ap, Bool, true, false, ℤ, pos, abs_ℕ, arith, Bool-cases,
  Option, none, some, [], to_i32,
}
use motor_control.Double.{Double}
use motor_control.Double.Laws.{IsOrdered, IsMonotone}
use motor_control.Waveform.Hysteresis.{
  HysteresisPlan, make_hyst_velocity_plan, make_hyst_position_plan,
}
use motor_control.Waveform.Hysteresis.Timing.{
  IsRunnable, make_hyst_velocity_plan-IsRunnable, make_hyst_position_plan-IsRunnable,
}
use motor_control.Ethercat.Axis.{get_copy}
use motor_control.Ethercat.Axis.Handover.{handover}
use motor_control.Logging.AsyncLogger.{csv_header, start_logging_window}
use motor_control.Commands.Waveform.{HystVelocityCommand, HystPositionCommand}
use motor_control.Node.State.{Node, Targets}
use motor_control.Node.Commands.{
  Outside, start_plan, run_velocity_plan, run_position_plan, finish_position, start_hyst_sine,
  start_hyst_pos_sine,
}

module _ {F : Type 0} where
  -- What moves the motor is as it was.
  pub record IsUnmoved (n m : Node F) : Type 0 where
    pub axis : m.axis ≡ n.axis
    pub targets : m.targets ≡ n.targets
    pub force : m.force ≡ n.force
    pub limit : m.limit ≡ n.limit
    pub out : m.out ≡ n.out

  -- The plan is under way: its waveform is active and its log is open for its window.
  pub record IsUnderWay (plan : HysteresisPlan F) (m : Node F) : Type 0 where
    pub waveform : get_copy m.axis.wf ≡ plan.waveform
    pub file :
        m.logger.log_file
        ≡ some (record { path = plan.path; header = csv_header; rows = []; flushed = 0 })
    pub active : m.logger.log_active ≡ true
    pub log_start : m.logger.log_start_ns ≡ plan.log_start_ns
    pub log_end : m.logger.log_end_ns ≡ plan.log_end_ns

  -- The log of a plan cannot be made.
  abbrev pub Fails : Outside → HysteresisPlan F → Type 0
  Fails outside plan = (outside.has_parent plan.path ≡ false) ⊎ (outside.opens plan.path ≡ false)

  -- Why a test does not start.
  pub data IsRefused (outside : Outside) (made : Option (HysteresisPlan F)) : Type 0 where
    no_plan : made ≡ none → IsRefused outside made
    no_log :
        (plan : HysteresisPlan F) → made ≡ some plan → Fails outside plan → IsRefused outside made

  abbrev Started : Outside → HysteresisPlan F → Targets → Node F → Bool × Node F → Type 0
  Started outside plan targets n r =
      (Fails outside plan × (r.0 ≡ false) × IsUnmoved n r.1)
      ⊎ ((r.0 ≡ true) × IsUnderWay plan r.1 × (r.1.targets ≡ targets))

  start_plan_lem :
      (outside : Outside) (plan : HysteresisPlan F) (n : Node F)
      → n.axis.wf.active_idx ≤ 1
      → Started outside plan n.targets n (start_plan outside plan n)
  unfolding start_plan start_logging_window
  start_plan_lem outside plan n h =
      let (_, set, _) = handover plan.waveform n.axis.wf h in
      elim (Bool-cases (outside.has_parent plan.path)) [
        | inr missing ↦ inl (inl missing, ground (arith, missing), ground (arith, missing))
        | inl made ↦ elim (Bool-cases (outside.opens plan.path)) [
          | inl opened ↦ inr (
            ground (arith, made, opened),
            ground (arith, made, opened, set),
            ground (arith, made, opened),
          )
          | inr closed ↦
              inl (inr closed, ground (arith, made, closed), ground (arith, made, closed))
        ]
      ]

  unmoved : (n : Node F) → IsUnmoved n n
  unmoved n = record { axis = refl; targets = refl; force = refl; limit = refl; out = refl }

module _ {F : Type 0} ⦃d : Double F⦄ where
  open d use {lround}

  -- The targets that a position test stores: its mode and its speed limit.
  abbrev pub position_test_targets : HysteresisPlan F → Targets → Targets
  position_test_targets plan t = record t {
    requested_op_mode = pos 8;
    pos_speed_limit = to_i32 (lround plan.max_tps);
  }

  finish_position_lem :
      (outside : Outside) (plan : HysteresisPlan F) (n : Node F) (r : Bool × Node F)
      → Started outside plan n.targets n r
      → Started outside plan (position_test_targets plan n.targets) n (finish_position plan r)
  finish_position_lem outside plan n (true, m) (inl h) = cc (h.1)
  finish_position_lem outside plan n (true, m) (inr h) =
      inr (refl, ground (arith, h.1), ap (position_test_targets plan) h.2)
  finish_position_lem outside plan n (false, m) (inl h) = inl h
  finish_position_lem outside plan n (false, m) (inr h) = cc (h.0)

  -- What a request for a test does with the plan that it may have.
  abbrev pub Outcome :
      Outside
      → Option (HysteresisPlan F)
      → ℤ
      → (HysteresisPlan F → Targets)
      → Node F
      → Bool × Node F
      → Type 0
  Outcome outside made now targets n r =
      (IsRefused outside made × (r.0 ≡ false) × IsUnmoved n r.1)
      ⊎ ((plan : HysteresisPlan F) × (made ≡ some plan)
          × IsRunnable plan now
          × (r.0 ≡ true)
          × IsUnderWay plan r.1
          × (r.1.targets ≡ targets plan))

  outcome :
      (outside : Outside) (now : ℤ) (targets : HysteresisPlan F → Targets) (n : Node F)
      (plan : HysteresisPlan F) (made : Option (HysteresisPlan F)) (r : Bool × Node F)
      → made ≡ some plan
      → IsRunnable plan now
      → Started outside plan (targets plan) n r
      → Outcome outside made now targets n r
  outcome outside now targets n plan made r e runs (inl h) =
      inl (IsRefused.no_log plan e h.0, h.1, h.2)
  outcome outside now targets n plan made r e runs (inr h) = inr (plan, e, runs, h.0, h.1, h.2)

  run_velocity_lem :
      (outside : Outside) (now : ℤ) (n : Node F) (made : Option (HysteresisPlan F))
      → n.axis.wf.active_idx ≤ 1
      → ((plan : HysteresisPlan F) → made ≡ some plan → IsRunnable plan now)
      → Outcome outside made now (λ plan. n.targets) n (run_velocity_plan outside made n)
  unfolding run_velocity_plan
  run_velocity_lem outside now n none h runs = inl (IsRefused.no_plan refl, refl, unmoved n)
  run_velocity_lem outside now n (some plan) h runs =
      outcome outside now (λ plan. n.targets) n plan (some plan) (start_plan outside plan n) refl
        (runs plan refl) (start_plan_lem outside plan n h)

  run_position_lem :
      (outside : Outside) (now : ℤ) (n : Node F) (made : Option (HysteresisPlan F))
      → n.axis.wf.active_idx ≤ 1
      → ((plan : HysteresisPlan F) → made ≡ some plan → IsRunnable plan now)
      → Outcome outside made now
          (λ plan. position_test_targets plan n.targets)
          n
          (run_position_plan outside made n)
  unfolding run_position_plan
  run_position_lem outside now n none h runs = inl (IsRefused.no_plan refl, refl, unmoved n)
  run_position_lem outside now n (some plan) h runs =
      outcome outside now (λ plan. position_test_targets plan n.targets) n plan (some plan)
        (finish_position plan (start_plan outside plan n)) refl (runs plan refl)
        (finish_position_lem outside plan n (start_plan outside plan n)
          (start_plan_lem outside plan n h))

module _ {F : Type 0} ⦃d : Double F⦄ where
  -- With numbers ordered, multiplied, inverted and rounded as IEEE 754 and cmath document, a
  -- buffer index of at most 1 and the clock below 2^61 ns, a request for a velocity test has
  -- one of two outcomes. Either there is no plan, or its directory cannot be made or its file
  -- not opened; then the result is false and the axis, the targets, the force control, the
  -- limit and the output are as they were. Or the result is true and there is a plan: its
  -- waveform starts 250 ms after now, its log opens then or later and closes at the opening or
  -- later, without a wrap-around, at a frequency in [0.001, 1000] Hz and with at most 1000
  -- settling and 1 to 10000 recorded cycles; that waveform is active, an empty file of its path
  -- is open for that window, and the targets are as they were.
  pub hyst_velocity-Outcome :
      IsOrdered F
      → IsMonotone F
      → (outside : Outside) (now : ℤ) (cmd : HystVelocityCommand F) (n : Node F)
      → n.axis.wf.active_idx ≤ 1
      → abs_ℕ now < 2 ^ 61
      → Outcome outside
          (make_hyst_velocity_plan cmd n.params.max_abs_target now)
          now
          (λ plan. n.targets)
          n
          (start_hyst_sine outside now cmd n)
  unfolding start_hyst_sine
  hyst_velocity-Outcome ordered mono outside now cmd n h near =
      run_velocity_lem outside now n (make_hyst_velocity_plan cmd n.params.max_abs_target now) h
        (λ plan made.
          make_hyst_velocity_plan-IsRunnable ordered mono cmd n.params.max_abs_target now plan near
            made)

  -- With the conditions of the velocity test, a request for a position test has one of its two
  -- outcomes: refused for one of its reasons, with false and with what moves the motor left as
  -- it was, or true and under way with a plan whose times, frequency and cycles are those of
  -- the velocity test, where of the targets only the requested mode has become 8 and the speed
  -- limit the rounded one of the plan.
  pub hyst_position-Outcome :
      IsOrdered F
      → IsMonotone F
      → (outside : Outside) (now : ℤ) (cmd : HystPositionCommand F) (n : Node F)
      → n.axis.wf.active_idx ≤ 1
      → abs_ℕ now < 2 ^ 61
      → Outcome outside
          (make_hyst_position_plan cmd now)
          now
          (λ plan. position_test_targets plan n.targets)
          n
          (start_hyst_pos_sine outside now cmd n)
  unfolding start_hyst_pos_sine
  hyst_position-Outcome ordered mono outside now cmd n h near =
      run_position_lem outside now n (make_hyst_position_plan cmd now) h
        (λ plan made. (make_hyst_position_plan-IsRunnable ordered mono cmd now plan near made).0)
