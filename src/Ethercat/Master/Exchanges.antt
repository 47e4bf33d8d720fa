-- ===== src/Ethercat/Master/Exchanges.antt =====
-- cpp/src/epos_control/src/epos_motor_node.cpp: how long init_ethercat may take, in exchanges of
-- process data.
use Prim.Native.String.{String}
use motor_control.Base.{ℕ, zero, suc, ◌+◌, ◌*◌, ◌<◌, ◌≤◌, ◌≡◌, ◌∙◌, ap, ℤ, List, replicate, arith}
use motor_control.Ethercat.Setup.{SdoWrite, setup_epos_pdo_mapping}
use motor_control.Ethercat.Master.{
  Soem, Bus, choose_slave, exchange, settle, request_operational, check_operational,
  await_operational, configure, bring_up, init_ethercat,
}
use motor_control.Ethercat.Master.StartUp.{Found}

module _ {M : Type 0} (soem : Soem M) where
  open soem use {
    state_safe_op, state_operational, timeout_ret, timeout_state, init, config_init, close,
    slave_count, set_hook, config_map, statecheck, writestate, state, set_state, send_processdata,
    receive_processdata, sleep_ms,
  }

  -- `sent` counts the calls of ec_send_processdata.
  pub record Counts (sent : M → ℕ) : Type 0 where
    pub on_send : (m : M) → sent (send_processdata m) ≡ sent m + 1
    pub on_receive : (t : ℕ) (m : M) → sent (receive_processdata t m) ≡ sent m
    pub on_init : (iface : String) (m : M) → sent (init iface m).1 ≡ sent m
    pub on_config : (m : M) → sent (config_init m).1 ≡ sent m
    pub on_close : (m : M) → sent (close m) ≡ sent m
    pub on_hook : (si : ℤ) (hook : List SdoWrite) (m : M) → sent (set_hook si hook m) ≡ sent m
    pub on_map : (image : List ℕ) (m : M) → sent (config_map image m) ≡ sent m
    pub on_check : (slave s t : ℕ) (m : M) → sent (statecheck slave s t m) ≡ sent m
    pub on_write : (slave : ℕ) (m : M) → sent (writestate slave m) ≡ sent m
    pub on_state : (s : ℕ) (m : M) → sent (set_state s m) ≡ sent m
    pub on_sleep : (ms : ℕ) (m : M) → sent (sleep_ms ms m) ≡ sent m

  module _ (sent : M → ℕ) (c : Counts sent) where
    sent-exchange : (m : M) → sent (exchange soem m) ≡ sent m + 1
    unfolding exchange
    sent-exchange m = c.on_receive timeout_ret (send_processdata m) ∙ c.on_send m

    sent-settle : (n : ℕ) (m : M) → sent (settle soem n m) ≡ sent m + n
    unfolding settle
    sent-settle zero m = omega arith
    sent-settle (suc n) m =
        let next : M = sleep_ms 2 (exchange soem m) in
        omega (arith, sent-settle n next, c.on_sleep 2 (exchange soem m), sent-exchange m)

    sent-check : (m : M) → sent (check_operational soem m) ≡ sent m + 1
    unfolding check_operational
    sent-check m = c.on_check 0 state_operational 50000 (exchange soem m) ∙ sent-exchange m

    sent-await :
        (n : ℕ) (m : M)
        → (sent m < sent (await_operational soem (suc n) m))
          × (sent (await_operational soem (suc n) m) ≤ sent m + suc n)
    unfolding await_operational
    sent-await zero m =
        let checked : M = check_operational soem m in
        ground (arith, sent-check m, c.on_sleep 2 checked)
    sent-await (suc n) m =
        let checked : M = check_operational soem m in
        ground (arith, sent-check m, c.on_sleep 2 checked, sent-await n (sleep_ms 2 checked))

    sent-configure : (si : ℤ) (m : M) → sent (configure soem si m) ≡ sent m + 50
    unfolding configure request_operational
    sent-configure si m =
        let hooked : M = set_hook si setup_epos_pdo_mapping m in
        let mapped : M = config_map (replicate 4096 0) hooked in
        let safe : M = statecheck 0 state_safe_op (timeout_state * 4) mapped in
        let settled : M = settle soem 50 safe in
        c.on_write 0 (set_state state_operational settled)
        ∙ c.on_state state_operational settled
        ∙ sent-settle 50 safe
        ∙ ap (λ (n : ℕ). n + 50)
            (c.on_check 0 state_safe_op (timeout_state * 4) mapped
              ∙ c.on_map (replicate 4096 0) hooked
              ∙ c.on_hook si setup_epos_pdo_mapping m)

    sent-bring_up :
        (b : Bus M) (m : M)
        → let final = (bring_up soem b m).1.master in
          (sent m + 51 ≤ sent final) × (sent final ≤ sent m + 90)
    unfolding bring_up
    sent-bring_up b m =
        let si : ℤ = choose_slave b.slave_index (slave_count m) in
        omega (arith, sent-configure si m, sent-await 39 (configure soem si m))

    -- With a count of the exchanges of process data: init_ethercat ends after at least 51 and
    -- at most 90 of them if the bus opens and a slave is found, and without one if not.
    pub init_ethercat-exchanges :
        (iface : String) (b : Bus M)
        → let final = (init_ethercat soem iface b).1.master in
          (Found soem iface b
            → (sent b.master + 51 ≤ sent final) × (sent final ≤ sent b.master + 90))
          × (¬ Found soem iface b → sent final ≡ sent b.master)
    unfolding init_ethercat
    init_ethercat-exchanges iface b =
        let opened : ℤ × M = init iface b.master in
        let found : ℤ × M = config_init opened.1 in
        (
          λ some_found.
              ground
                (arith, c.on_init iface b.master, c.on_config opened.1, sent-bring_up b found.1),
          λ none_found.
              ground (arith, c.on_init iface b.master, c.on_config opened.1, c.on_close found.1),
        )
