-- ===== src/Node/ForceCommands/Protocols.antt =====
-- cpp/src/epos_control/src/epos_motor_node.cpp: /epos/force_ctrl_cmd and /epos/force_ctrl_cmd_v2, the two
-- ways to send a force command.
use Prim.Native.String.{String}
use motor_control.Base.{ℕ, ◌≤◌, ◌≡◌, refl, true, not, ℤ, pos, negsuc, eq_ℤ, arith, some}
use motor_control.Double.{Double, nought, fmax, fclamp}
use motor_control.Commands.Reader.{TextReader, Extract, extract}
use motor_control.Commands.Force.{
  ForceCommandKind, ForceCtrlCmd, of_kind, force_command_from_msg, clamp_gain,
}
use motor_control.Commands.ForceText.{
  parse_force_ctrl, parse_token, parse_one, parse_pid, parse_tanh, parse_tare, parse_feedback,
  is_valid_feedback_mode, parse_feedback_mode,
}
use motor_control.Commands.Spelling.{Begins, extract_value}
use motor_control.Node.State.{Node}
use motor_control.Node.ForceCommands.{
  force_switch, apply_force_command, handle_force_ctrl_msg, handle_force_ctrl_cmd,
}

module _ {F : Type 0} ⦃d : Double F⦄ where
  fclamp_twice : (lo hi x : F) → fclamp lo hi (fclamp lo hi x) ≡ fclamp lo hi x
  fclamp_twice lo hi x = ground arith

  fmax_twice : (lo x : F) → fmax lo (fmax lo x) ≡ fmax lo x
  fmax_twice lo x = ground arith

feedback-le : (label : String) (k : ℕ) → parse_feedback_mode label ≡ pos k → k ≤ 3
unfolding parse_feedback_mode
feedback-le label k h = ground (arith, h)

module _ {F : Type 0} ⦃d : Double F⦄ (reader : TextReader F) where
  text_token :
      (cmd token rest : String)
      → Begins reader cmd token rest
      → parse_force_ctrl reader cmd ≡ parse_token reader token (some rest)
  unfolding parse_force_ctrl
  text_token cmd token rest h =
      rw (extract_value reader.word "" cmd token rest "" h, parse_force_ctrl) refl

  text_feedback :
      (rest label left : String)
      → reader.word rest ≡ Extract.value label left
      → is_valid_feedback_mode label ≡ true
      → parse_feedback reader (some rest) ≡ record (of_kind {F = F} ForceCommandKind.set_feedback) {
        feedback_mode = parse_feedback_mode label;
      }
  unfolding parse_feedback
  text_feedback rest label left r v =
      let heard : extract reader.word "" (some rest) "" ≡ (label, some left) =
        extract_value reader.word "" rest label left "" r in
      rw heard (rw v refl)

  -- The text says what the message says: its first word names the action, and the numbers read after
  -- it are those of the message. A target and gains are values that the clamps of the message keep.
  pub data ForceSpells (cmd : String) (msg : ForceCtrlCmd F) : Type 0 where
    start : (rest : String) → Begins reader cmd "start" rest → msg.action ≡ 1 → ForceSpells cmd msg
    stop : (rest : String) → Begins reader cmd "stop" rest → msg.action ≡ 2 → ForceSpells cmd msg
    target :
        (rest left : String)
        → Begins reader cmd "target" rest
        → reader.number rest ≡ Extract.value msg.target_n left
        → fmax nought msg.target_n ≡ msg.target_n
        → msg.action ≡ 3
        → ForceSpells cmd msg
    direction :
        (rest left : String)
        → Begins reader cmd "direction" rest
        → reader.integer rest ≡ Extract.value msg.direction left
        → msg.action ≡ 4
        → ForceSpells cmd msg
    feedback :
        (rest label left : String)
        → Begins reader cmd "feedback" rest
        → reader.word rest ≡ Extract.value label left
        → is_valid_feedback_mode label ≡ true
        → parse_feedback_mode label ≡ pos msg.feedback
        → msg.action ≡ 5
        → ForceSpells cmd msg
    pid :
        (rest rest_i rest_d left : String)
        → Begins reader cmd "pid" rest
        → reader.number rest ≡ Extract.value msg.kp rest_i
        → reader.number rest_i ≡ Extract.value msg.ki rest_d
        → reader.number rest_d ≡ Extract.value msg.kd left
        → clamp_gain msg.kp ≡ msg.kp
        → clamp_gain msg.ki ≡ msg.ki
        → clamp_gain msg.kd ≡ msg.kd
        → msg.action ≡ 6
        → ForceSpells cmd msg
    tanh :
        (rest rest_dead left : String)
        → Begins reader cmd "tanh" rest
        → reader.number rest ≡ Extract.value msg.tanh_sensitivity_n rest_dead
        → reader.number rest_dead ≡ Extract.value msg.tanh_deadband_n left
        → msg.action ≡ 7
        → ForceSpells cmd msg
    max_rpm :
        (rest left : String)
        → Begins reader cmd "maxrpm" rest
        → reader.integer rest ≡ Extract.value msg.max_rpm left
        → msg.action ≡ 8
        → ForceSpells cmd msg
    alpha :
        (rest left : String)
        → Begins reader cmd "alpha" rest
        → reader.number rest ≡ Extract.value msg.output_alpha left
        → msg.action ≡ 9
        → ForceSpells cmd msg
    limit :
        (rest left : String)
        → Begins reader cmd "limit" rest
        → reader.number rest ≡ Extract.value msg.limit_n left
        → msg.action ≡ 10
        → ForceSpells cmd msg
    force_abs :
        (rest left : String) (enabled : ℤ)
        → Begins reader cmd "force_abs" rest
        → reader.integer rest ≡ Extract.value enabled left
        → msg.force_abs ≡ not (eq_ℤ enabled (pos 0))
        → msg.action ≡ 11
        → ForceSpells cmd msg
    tare_offset :
        (rest rest_offset left : String)
        → Begins reader cmd "tare_offset" rest
        → reader.integer rest ≡ Extract.value msg.tare_channel rest_offset
        → reader.number rest_offset ≡ Extract.value msg.tare_offset_n left
        → msg.action ≡ 12
        → ForceSpells cmd msg
    tare_reset :
        (rest : String)
        → Begins reader cmd "tare_reset" rest
        → msg.action ≡ 13
        → ForceSpells cmd msg

  -- A force command as text and as message does the same to the node, whatever state it is in,
  -- if the first word of the text names the action of the message and the values read after it
  -- are those of the message: for every action, and for every value of the numbers but the
  -- target force and the gains, which must be values that the clamps of the message keep.
  pub force_protocols_agree :
      (now : ℤ) (cmd : String) (msg : ForceCtrlCmd F) (n : Node F)
      → ForceSpells cmd msg
      → handle_force_ctrl_cmd reader now cmd n ≡ handle_force_ctrl_msg reader now msg n
  unfolding handle_force_ctrl_cmd handle_force_ctrl_msg apply_force_command parse_token parse_one
      parse_pid parse_tanh parse_tare extract force_command_from_msg force_switch
  force_protocols_agree now cmd msg n (ForceSpells.start rest h a) =
      rw (text_token cmd "start" rest h) (ground (arith, a))
  force_protocols_agree now cmd msg n (ForceSpells.stop rest h a) =
      rw (text_token cmd "stop" rest h) (ground (arith, a))
  force_protocols_agree now cmd msg n (ForceSpells.target rest left h r c a) =
      rw (text_token cmd "target" rest h) (ground (arith, r, c, a))
  force_protocols_agree now cmd msg n (ForceSpells.direction rest left h r a) =
      rw (text_token cmd "direction" rest h) (ground (arith, r, a))
  force_protocols_agree now cmd msg n (ForceSpells.feedback rest label left h r v p a) =
      rw (text_token cmd "feedback" rest h)
        (ground (arith, text_feedback rest label left r v, feedback-le label msg.feedback p, p, a))
  force_protocols_agree now cmd msg n
        (ForceSpells.pid rest rest_i rest_d left h rp ri rd cp ci cd a) =
      rw (text_token cmd "pid" rest h) (ground (arith, rp, ri, rd, cp, ci, cd, a))
  force_protocols_agree now cmd msg n (ForceSpells.tanh rest rest_dead left h rs rd a) =
      rw (text_token cmd "tanh" rest h) (
        ground (
          arith,
          rs,
          rd,
          a,
          fclamp_twice (d.lit (pos 1) 2) (d.lit (pos 50) 0) msg.tanh_sensitivity_n,
          fclamp_twice nought (d.lit (pos 10) 0) msg.tanh_deadband_n,
        ))
  force_protocols_agree now cmd msg n (ForceSpells.max_rpm rest left h r a) =
      rw (text_token cmd "maxrpm" rest h) (ground (arith, r, a))
  force_protocols_agree now cmd msg n (ForceSpells.alpha rest left h r a) =
      rw (text_token cmd "alpha" rest h)
        (ground (arith, r, a, fclamp_twice (d.lit (pos 1) 2) (d.lit (pos 1) 0) msg.output_alpha))
  force_protocols_agree now cmd msg n (ForceSpells.limit rest left h r a) =
      rw (text_token cmd "limit" rest h) (ground (arith, r, a, fmax_twice nought msg.limit_n))
  force_protocols_agree now cmd msg n (ForceSpells.force_abs rest left enabled h r e a) =
      rw (text_token cmd "force_abs" rest h) (ground (arith, r, e, a))
  force_protocols_agree now cmd msg n (ForceSpells.tare_offset rest rest_offset left h rc ro a) =
      rw (text_token cmd "tare_offset" rest h) (
        ground (
          arith,
          rc,
          ro,
          a,
          fclamp_twice (d.lit (negsuc 99999) 0) (d.lit (pos 100000) 0) msg.tare_offset_n,
        ))
  force_protocols_agree now cmd msg n (ForceSpells.tare_reset rest h a) =
      rw (text_token cmd "tare_reset" rest h) (ground (arith, a))
