-- ===== src/Control/Position.antt =====
-- cpp/src/epos_control/include/control/position_control.hpp: a position target becomes a velocity
-- command. The result carries the state that the source updates through a reference.
pub mod Bounds
use motor_control.Base.{
  Bool, false, ◌&&◌, ◌||◌, not, ℤ, pos, ◌-ℤ◌, le_ℤ, eq_ℤ, max_ℤ, neg_ℤ, abs_i32, to_i32,
  if◌then◌else◌,
}
use motor_control.Double.{Double, ◌⊕◌, ◌⊖◌, ◌⊗◌, ◌⊘◌, nought, fmin, fmax}
use motor_control.Waveform.{WaveformConfig, is_position_sine, elapsed_s, pi}

-- struct PositionControlState
pub record PositionControlState : Type 0 where
  pub active_wave_start_ns : ℤ
  pub wave_base_pos : ℤ

-- struct PositionControlResult
pub record PositionControlResult : Type 0 where
  pub target_pos : ℤ
  pub target_rpm : ℤ
  pub wave_active : Bool
  pub wave_finished : Bool

-- What the first half of the function leaves: the goal, the feed-forward and the new state.
pub record Goal (F : Type 0) : Type 0 where
  pub target_pos : ℤ
  pub feed_forward : F
  pub finished : Bool
  pub state : PositionControlState

module _ {F : Type 0} ⦃d : Double F⦄ where
  open d use {lit, of_int, lt, le, lround, sin, cos}

  -- A new wave takes the present position as its base.
  unfoldable pub rebase : WaveformConfig F → ℤ → PositionControlState → PositionControlState
  rebase wf current_pos state =
      if eq_ℤ state.active_wave_start_ns wf.start_ns
      then state
      else record { active_wave_start_ns = wf.start_ns; wave_base_pos = current_pos }

  abbrev wave_angle : WaveformConfig F → F → F
  wave_angle wf elapsed = lit (pos 2) 0 ⊗ pi ⊗ wf.freq_hz ⊗ elapsed

  unfoldable pub wave_goal : WaveformConfig F → ℤ → ℤ → PositionControlState → Goal F
  wave_goal wf now_ns current_pos state =
      let elapsed_raw = elapsed_s now_ns wf.start_ns in
      let based = rebase wf current_pos state in
      let finished = lt nought wf.duration_s && le wf.duration_s elapsed_raw in
      let angle = wave_angle wf (if finished then wf.duration_s else elapsed_raw) in
      let desired =
        of_int based.wave_base_pos
        ⊕ wf.offset_pos_ticks
        ⊕ wf.amp_pos_ticks ⊗ (lit (pos 1) 0 ⊖ cos angle) in
      if lt elapsed_raw nought
      then record {
        target_pos = current_pos;
        feed_forward = nought;
        finished = false;
        state = state;
      }
      else record {
        target_pos = to_i32 (lround desired);
        feed_forward =
            if finished
            then nought
            else wf.amp_pos_ticks ⊗ lit (pos 2) 0 ⊗ pi ⊗ wf.freq_hz ⊗ sin angle;
        finished = finished;
        state = based;
      }

  unfoldable pub position_goal : WaveformConfig F → ℤ → ℤ → ℤ → PositionControlState → Goal F
  position_goal wf now_ns current_pos requested_pos state =
      if is_position_sine wf.type then wave_goal wf now_ns current_pos state else record {
        target_pos = requested_pos;
        feed_forward = nought;
        finished = false;
        state = record state { active_wave_start_ns = pos 0 };
      }

  -- The speed limit in ticks per second.
  unfoldable pub max_tps_of : WaveformConfig F → ℤ → ℤ
  max_tps_of wf speed_limit_tps =
      let base = if le_ℤ speed_limit_tps (pos 0) then pos 10000 else speed_limit_tps in
      if is_position_sine wf.type && lt (lit (pos 1) 0) wf.max_pos_tps
      then max_ℤ base (to_i32 (lround wf.max_pos_tps))
      else base

  unfoldable pub compute_position_csv_command :
      WaveformConfig F
      → ℤ
      → ℤ
      → ℤ
      → ℤ
      → F
      → ℤ
      → PositionControlState
      → PositionControlResult × PositionControlState
  compute_position_csv_command wf now_ns current_pos requested_pos speed_limit p_gain ticks_per_rev
        state =
      let goal = position_goal wf now_ns current_pos requested_pos state in
      let active = is_position_sine wf.type in
      let max_tps = max_tps_of wf speed_limit in
      let pos_error = to_i32 (goal.target_pos -ℤ current_pos) in
      let raw_tps = of_int pos_error ⊗ p_gain ⊕ goal.feed_forward in
      let limited = fmax (of_int (neg_ℤ max_tps)) (fmin (of_int max_tps) raw_tps) in
      let near = (not active || goal.finished) && le_ℤ (abs_i32 pos_error) (pos 3) in
      let calc_tps = if near then nought else limited in
      let rpm_per_tps = lit (pos 60) 0 ⊘ of_int (max_ℤ (pos 1) ticks_per_rev) in
      (
        record {
          target_pos = goal.target_pos;
          target_rpm = to_i32 (lround (calc_tps ⊗ rpm_per_tps));
          wave_active = active;
          wave_finished = goal.finished;
        },
        goal.state,
      )
