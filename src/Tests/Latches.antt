-- ===== src/Tests/Latches.antt =====
-- The theorems on the control word and on a tripped limit, over several rounds.
use mathlib.Core.Path.{subst}
use motor_control.Base.{
  ℕ, zero, suc, ◌≡◌, refl, true, pos, List, [], ◌∷◌, ◌++◌, arith, replicate, if◌then◌else◌, ◌==◌,
  Bool, false, ◌≤◌, inl, inr, ap, sym, some, All, to_i32, to_i64, ◌-ℤ◌, ◌*ℤ◌,
}
use motor_control.Double.Fixed.{Fixed, fixed_double}
use motor_control.Ethercat.Cia402.{
  is_fault, is_operation_enabled, is_switched_on, is_ready_to_switch_on, control_fault_reset,
  control_shutdown, control_switch_on, control_enable_operation,
}
use motor_control.Ethercat.Cia402.States.{IsDisabled, IsReady, IsSwitchedOn, IsEnabled}
use motor_control.Ethercat.Pdo.{OutPdo}
use motor_control.Units.{n_to_mn}
use motor_control.Node.State.{Node}
use motor_control.Node.Start.{start_node}
use motor_control.Node.Cycle.{rt_cycle}
use motor_control.Node.Cycle.Mode.{enable_wanted}
use motor_control.Node.Cycle.Safe.{good_round}
use motor_control.Node.Cycle.Timing.{CycleTime}
use motor_control.Node.Cycle.Word.Enable.{Drive, Answers, Responds, turns, drive-IsEnabled}
use motor_control.Node.Cycle.Word.Reset.{
  Exchange, ShowsFault, sent_words, after, after_all, reset_rounds, request_waits,
}
use motor_control.Node.Latch.{IsLatched}
use motor_control.Node.Step.{Event, run}
use motor_control.Node.Step.Latch.{trip_lasts}
use motor_control.Safety.ForceLimit.{is_recent_sample}
use motor_control.Tests.Data.{started, enabled_drive, faulty_drive, clock, reader, outside}

-- 200 N on the first channel, where the limit is 100 N.
abbrev overloaded : Node Fixed
overloaded = record started {
  sensors = record started.sensors { force_ch0_mn = pos 200_000; force_ch0_ns = pos 1_900_000 };
}

abbrev late : CycleTime
late = record { scheduled_ns = pos 900_000_000; now_ns = pos 900_000_000 }

-- A new target, and a round when the reading is 0.9 s old.
abbrev blind_events : List (Event Fixed)
blind_events =
    Event.target_speed (pos 3_000_000) (pos 500)
    ∷ Event.cycle (record { time = late; wkc = pos 3; inputs = some enabled_drive })
    ∷ []

trip_lasts_example :
    IsLatched
      (pos 1_900_000)
      (pos 0)
      (run reader outside blind_events (rt_cycle (good_round clock 2 enabled_drive) overloaded))
unfolding start_node is_recent_sample to_i32 to_i64 n_to_mn ◌-ℤ◌ ◌*ℤ◌
trip_lasts_example =
    trip_lasts reader outside clock 2 enabled_drive overloaded blind_events
      (record {
        small0 = omega arith;
        small1 = omega arith;
        on = omega arith;
        over = inl (refl, omega arith);
      })
      (tt, ((refl, refl), tt))

-- The state that a control word asks for.
abbrev answer : ℕ → ℕ
answer word =
    if word == control_shutdown
    then 0x0021
    else if word == control_switch_on
    then 0x0023
    else 0x0027

-- A drive that answers in every second exchange: its status word, and whether it waits.
abbrev move : ℕ → ℕ × Bool → ℕ × Bool
move word (status, true) = (status, false)
move word (status, false) = (answer word, true)

abbrev wait : ℕ × Bool → ℕ
wait (status, true) = 1
wait (status, false) = 0

abbrev drive : Drive (ℕ × Bool)
drive = record {
  inputs = λ s. record enabled_drive { status_word = s.0 };
  next = λ out s. move out.control_word s;
  disturbed = λ s. false;
}

wait_bound : (s : ℕ × Bool) → wait s ≤ 1
wait_bound (status, true) = omega arith
wait_bound (status, false) = omega arith

drive-Answers :
    (word : ℕ) (From To : ℕ → Type 0) → To (answer word) → Answers drive wait word From To
drive-Answers word From To there (status, true) out here sent calm = inr (here, omega arith)
drive-Answers word From To there (status, false) out here sent calm =
    inl (subst To (ap answer (sym sent)) there)

drive-stay :
    (s : ℕ × Bool) (out : OutPdo)
    → IsEnabled s.0
    → out.control_word ≡ control_enable_operation
    → IsEnabled (move out.control_word s).0
unfolding is_operation_enabled
drive-stay (status, true) out here sent = here
drive-stay (status, false) out here sent = subst (λ w. IsEnabled (answer w)) (sym sent) refl

drive-Responds : Responds drive 1
unfolding is_operation_enabled is_switched_on is_ready_to_switch_on
drive-Responds = record {
  delay = wait;
  in_time = wait_bound;
  shutdown = drive-Answers control_shutdown IsDisabled IsReady refl;
  switch_on = drive-Answers control_switch_on IsReady IsSwitchedOn refl;
  enable = drive-Answers control_enable_operation IsSwitchedOn IsEnabled refl;
  stay = λ s out here sent calm. drive-stay s out here sent;
}

-- Six rounds: each of the three transitions takes two.
abbrev six : List (CycleTime × ℕ)
six = replicate 6 (clock, 2)

drive-IsEnabled_example : IsEnabled (turns drive six (started, (0x0040, true))).1.0
unfolding start_node enable_wanted
drive-IsEnabled_example =
    drive-IsEnabled drive 1 drive-Responds six started (0x0040, true) refl refl
      (refl, (refl, (refl, (refl, (refl, (refl, tt)))))) (omega arith)

abbrev asked : Node Fixed
asked = record started { targets = record started.targets { fault_reset_req = true } }

abbrev fault_round : Exchange
fault_round = (clock, 2, faulty_drive)

faults : (n : ℕ) → All (ShowsFault true) (replicate n fault_round)
unfolding is_fault
faults zero = tt
faults (suc n) = (refl, faults n)

reset_rounds_example :
    sent_words (replicate 20 fault_round) asked
    ≡ replicate 20 control_fault_reset ++ replicate 0 control_shutdown
unfolding is_fault
reset_rounds_example = reset_rounds (replicate 20 fault_round) asked 0 (faults 20) refl refl

request_waits_example :
    (after fault_round (after_all ((clock, 2, enabled_drive) ∷ []) asked)).out.control_word
    ≡ control_fault_reset
unfolding is_fault
request_waits_example =
    request_waits ((clock, 2, enabled_drive) ∷ []) fault_round asked (refl, tt) refl refl
