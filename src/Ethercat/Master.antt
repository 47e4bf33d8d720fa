-- ===== src/Ethercat/Master.antt =====
-- cpp/src/epos_control/src/epos_motor_node.cpp: init_ethercat, the recovery of the bus and its closing.
-- The master is the library SOEM: its state `M` and its calls are the parameter `Soem`.
pub mod StartUp
pub mod Exchanges
use Prim.Native.String.{String}
use motor_control.Base.{
  ℕ, zero, suc, ◌+◌, ◌*◌, ◌^◌, Bool, true, false, ◌||◌, not, ℤ, pos, lt_ℤ, le_ℤ, eq_ℤ, List,
  replicate, ◌==◌, if◌then◌else◌,
}
use motor_control.Ethercat.Setup.{SdoWrite, setup_epos_pdo_mapping}

-- The calls of SOEM that the node makes, and the constants that it takes from it: EC_STATE_SAFE_OP,
-- EC_STATE_OPERATIONAL, EC_TIMEOUTRET and EC_TIMEOUTSTATE. `state` and `set_state` read and write ec_slave[0].state.
pub record Soem (M : Type 0) : Type 0 where
  pub state_safe_op : ℕ
  pub state_operational : ℕ
  pub timeout_ret : ℕ
  pub timeout_state : ℕ
  pub init : String → M → ℤ × M
  pub config_init : M → ℤ × M
  pub close : M → M
  pub slave_count : M → ℤ
  pub set_hook : ℤ → List SdoWrite → M → M
  pub config_map : List ℕ → M → M
  pub statecheck : ℕ → ℕ → ℕ → M → M
  pub writestate : ℕ → M → M
  pub state : M → ℕ
  pub set_state : ℕ → M → M
  pub send_processdata : M → M
  pub receive_processdata : ℕ → M → M
  pub sleep_ms : ℕ → M → M

-- What the node keeps of the bus: the master, axis_.slave_index and operational_.
pub record Bus (M : Type 0) : Type 0 where
  pub master : M
  pub slave_index : ℤ
  pub operational : Bool

-- if (si < 1 || si > ec_slavecount) si = 1;
unfoldable pub choose_slave : ℤ → ℤ → ℤ
choose_slave si count = if lt_ℤ si (pos 1) || lt_ℤ count si then pos 1 else si

module _ {M : Type 0} (soem : Soem M) where
  open soem use {
    state_safe_op, state_operational, timeout_ret, timeout_state, init, config_init, close,
    slave_count, set_hook, config_map, statecheck, writestate, state, set_state, send_processdata,
    receive_processdata, sleep_ms,
  }

  unfoldable pub exchange : M → M
  exchange m = receive_processdata timeout_ret (send_processdata m)

  -- for (int i = 0; i < 50; i++), with `left` rounds left
  unfoldable pub settle : ℕ → M → M
  settle zero m = m
  settle (suc left) m = settle left (sleep_ms 2 (exchange m))

  unfoldable pub request_operational : M → M
  request_operational m = writestate 0 (set_state state_operational m)

  -- One round of the wait for the operational state, up to the test.
  unfoldable pub check_operational : M → M
  check_operational m = statecheck 0 state_operational 50000 (exchange m)

  -- for (int i = 0; i < 40; i++), with `left` rounds left
  unfoldable pub await_operational : ℕ → M → M
  await_operational zero m = m
  await_operational (suc left) m =
      let checked = check_operational m in
      let rest = await_operational left (sleep_ms 2 checked) in
      if state checked == state_operational then checked else rest

  -- From the choice of the slave to the request for the operational state.
  unfoldable pub configure : ℤ → M → M
  configure si m =
      let hooked = set_hook si setup_epos_pdo_mapping m in
      let mapped = config_map (replicate 4096 0) hooked in
      let safe = statecheck 0 state_safe_op (timeout_state * 4) mapped in
      request_operational (settle 50 safe)

  -- From the discovery of the slaves on.
  unfoldable pub bring_up : Bus M → M → Bool × Bus M
  bring_up b found =
      let si = choose_slave b.slave_index (slave_count found) in
      let final = await_operational 40 (configure si found) in
      let up = state final == state_operational in
      (
        up,
        record {
          master = final;
          slave_index = si;
          operational = if up then true else b.operational;
        },
      )

  unfoldable pub init_ethercat : String → Bus M → Bool × Bus M
  init_ethercat iface b =
      let opened = init iface b.master in
      let found = config_init opened.1 in
      if eq_ℤ opened.0 (pos 0)
      then (false, record b { master = opened.1 })
      else if le_ℤ found.0 (pos 0)
      then (false, record b { master = close found.1 })
      else bring_up b found.1

  -- The part of handle_wkc_recovery that is done when a recovery is due.
  unfoldable pub recover : M → M
  recover m =
      let checked = statecheck 0 state_operational 50000 m in
      if state checked == state_operational then checked else request_operational checked

  -- The end of the destructor, when the threads have ended.
  unfoldable pub shut_down : Bus M → M
  shut_down b = close (if b.operational then sleep_ms 100 b.master else b.master)
