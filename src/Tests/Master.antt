-- ===== src/Tests/Master.antt =====
-- The theorems on the start of the node and on its bus, with a small master and drive.
use motor_control.Base.{ℕ, ◌+◌, ◌≤◌, ◌≡◌, ◌↔◌, refl, true, false, pos, le_ℤ, arith, replicate}
use motor_control.Double.Fixed.{Fixed, fixed_double}
use motor_control.Ethercat.Master.{
  Soem, Bus, init_ethercat, bring_up, configure, settle, exchange, request_operational,
  check_operational, await_operational, choose_slave,
}
use motor_control.Ethercat.Master.StartUp.{IsDocumented, Found, Reaches, ready, init_ethercat_iff}
use motor_control.Ethercat.Master.Exchanges.{Counts, init_ethercat-exchanges}
use motor_control.Node.State.{Node}
use motor_control.Node.Start.{start_node}
use motor_control.Node.Invariant.{IsSound}
use motor_control.Node.Cycle.Failures.{rounds}
use motor_control.Node.Life.{has_no_interface, construct, handle_wkc_recovery}
use motor_control.Node.Life.Construct.{construct_lem}
use motor_control.Node.Life.Recovery.{recovery_missed}
use motor_control.Tests.Data.{options, started, lost}

-- A bus of one slave that goes to each state it is asked for.
pub record Bench : Type 0 where
  pub level : ℕ
  pub count : ℕ

abbrev pub soem : Soem Bench
soem = record {
  state_safe_op = 0x04;
  state_operational = 0x08;
  timeout_ret = 2000;
  timeout_state = 2_000_000;
  init = λ iface m. (pos 1, m);
  config_init = λ m. (pos 1, m);
  close = λ m. m;
  slave_count = λ m. pos 1;
  set_hook = λ si hook m. m;
  config_map = λ image m. m;
  statecheck = λ slave level timeout m. record m { level = level };
  writestate = λ slave m. m;
  state = λ m. m.level;
  set_state = λ level m. record m { level = level };
  send_processdata = λ m. record m { count = m.count + 1 };
  receive_processdata = λ timeout m. m;
  sleep_ms = λ ms m. m;
}

abbrev pub bench : Bench
bench = record { level = 2; count = 0 }

abbrev bus : Bus Bench
bus = record { master = bench; slave_index = pos 3; operational = false }

documented : IsDocumented soem
documented = record { quiet = λ ms m. refl; counted = λ m. refl }

found : Found soem "enp1s0" bus
found = (λ e. cc, refl)

init_ethercat_iff_example :
    ((init_ethercat soem "enp1s0" bus).0 ≡ true)
    ↔ (Found soem "enp1s0" bus × Reaches soem 40 (ready soem "enp1s0" bus))
init_ethercat_iff_example = init_ethercat_iff soem documented "enp1s0" bus

counts : Counts soem (λ m. m.count)
counts = record {
  on_send = λ m. refl;
  on_receive = λ t m. refl;
  on_init = λ iface m. refl;
  on_config = λ m. refl;
  on_close = λ m. refl;
  on_hook = λ si hook m. refl;
  on_map = λ image m. refl;
  on_check = λ slave s t m. refl;
  on_write = λ slave m. refl;
  on_state = λ s m. refl;
  on_sleep = λ ms m. refl;
}

init_ethercat-exchanges_example :
    let final = (init_ethercat soem "enp1s0" bus).1.master in
    (Found soem "enp1s0" bus → (0 + 51 ≤ final.count) × (final.count ≤ 0 + 90))
    × (¬ Found soem "enp1s0" bus → final.count ≡ 0)
init_ethercat-exchanges_example = init_ethercat-exchanges soem (λ m. m.count) counts "enp1s0" bus

abbrev built_node : Node Fixed
built_node = record started { axis = record started.axis { slave_index = pos 1 } }

abbrev pub built_bus : Bus Bench
built_bus = record {
  master = record { level = 8; count = 51 };
  slave_index = pos 1;
  operational = true;
}

construct_lem_example :
    IsSound built_node
    × (true ≡ true)
    × (◌≡◌ {A = ℕ} 8 soem.state_operational)
    × (built_node.axis.slave_index ≡ built_bus.slave_index)
    × (le_ℤ (pos 1) (pos 1) ≡ true)
unfolding construct init_ethercat bring_up configure settle exchange request_operational
    check_operational await_operational choose_slave has_no_interface start_node
construct_lem_example =
    construct_lem soem documented "enp1s0" options (pos 1_000_000) bench built_node built_bus refl

-- A node that has seen one failure, and the twenty rounds until the next feedback.
abbrev failing : Node Fixed
failing = record started { diag = record started.diag { consecutive_wkc_errors = pos 1 } }

recovery_missed_example :
    handle_wkc_recovery soem (rounds (replicate 20 lost) failing) bench ≡ bench
unfolding start_node
recovery_missed_example =
    recovery_missed soem bench (replicate 20 lost) failing 1 1 (omega arith) refl refl refl
      (omega arith) (omega arith)
