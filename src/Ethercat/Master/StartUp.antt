-- ===== src/Ethercat/Master/StartUp.antt =====
-- cpp/src/epos_control/src/epos_motor_node.cpp: when init_ethercat succeeds.
use Prim.Native.String.{String}
use motor_control.Base.{
  ℕ, zero, suc, ◌<◌, ◌≡◌, ◌≢◌, ◌↔◌, refl, inl, inr, true, false, ℤ, pos, ◌==◌, le_ℤ, arith,
  Bool-cases, ==_iff,
}
use motor_control.Ethercat.Master.{
  Soem, Bus, choose_slave, check_operational, await_operational, configure, bring_up, init_ethercat,
}

module _ {M : Type 0} (soem : Soem M) where
  open soem use {state_operational, init, config_init, slave_count, state, sleep_ms}

  -- The master at the test of the round after `k` failed rounds of the wait.
  abbrev pub after : ℕ → M → M
  after zero m = check_operational soem m
  after (suc k) m = after k (sleep_ms 2 (check_operational soem m))

  -- The bus is operational at the test of one of the first `n` rounds.
  abbrev pub Reaches : ℕ → M → Type 0
  Reaches n m = (k : ℕ) × (k < n) × (state (after k m) ≡ state_operational)

  -- A sleep does not change what the master knows of the state.
  abbrev pub IsQuiet : Type 0
  IsQuiet = (ms : ℕ) (m : M) → state (sleep_ms ms m) ≡ state m

  -- A wait that ends in the operational state has reached it in one of its rounds.
  await_operational-Reaches :
      IsQuiet
      → (n : ℕ) (m : M) → (n ≡ 0 → state m ≢ state_operational)
      → state (await_operational soem n m) ≡ state_operational
      → Reaches n m
  unfolding await_operational
  await_operational-Reaches quiet zero m off up = absurd (off refl up)
  await_operational-Reaches quiet (suc n) m off up =
      let checked : M = check_operational soem m in
      elim (Bool-cases (state checked == state_operational)) [
        | inl now ↦ (zero, omega arith, (==_iff (state checked) state_operational).0 now)
        | inr later ↦
            let still : state (sleep_ms 2 checked) ≢ state_operational =
              λ e. ground (arith, quiet 2 checked) in
            let rest : Reaches n (sleep_ms 2 checked) =
              await_operational-Reaches quiet n (sleep_ms 2 checked) (λ e. still) (ground arith) in
            (suc rest.0, omega (arith, rest.1), rest.2)
      ]

  operational_of-Reaches :
      (n k : ℕ) (m : M)
      → k < n
      → state (after k m) ≡ state_operational
      → state (await_operational soem n m) ≡ state_operational
  unfolding await_operational
  operational_of-Reaches zero k m below up = absurd (omega arith)
  operational_of-Reaches (suc n) zero m below up = ground arith
  operational_of-Reaches (suc n) (suc k) m below up =
      ground (arith, operational_of-Reaches n k (sleep_ms 2 (check_operational soem m)))

  -- What the documentation of SOEM says of the calls: a sleep does not change what the master knows
  -- of the state, and the slaves found are the slaves counted.
  pub record IsDocumented : Type 0 where
    pub quiet : IsQuiet
    pub counted : (m : M) → (config_init m).0 ≡ slave_count (config_init m).1

  -- The bus was opened, and slaves were found.
  abbrev pub Found : String → Bus M → Type 0
  Found iface b =
      ((init iface b.master).0 ≢ pos 0)
      × (le_ℤ (config_init (init iface b.master).1).0 (pos 0) ≡ false)

  -- The master when init_ethercat starts to wait.
  abbrev pub ready : String → Bus M → M
  ready iface b =
      let found = (config_init (init iface b.master).1).1 in
      configure soem (choose_slave b.slave_index (slave_count found)) found

  choose_slave_bounds :
      (si count : ℤ)
      → le_ℤ count (pos 0) ≡ false
      → (le_ℤ (pos 1) (choose_slave si count) ≡ true) × (le_ℤ (choose_slave si count) count ≡ true)
  unfolding choose_slave
  choose_slave_bounds si count h = ground arith

  -- With a master as it is documented: init_ethercat succeeds exactly when the bus opens, a
  -- slave is found and one of the 40 rounds of the wait finds the operational state.
  pub init_ethercat_iff :
      IsDocumented
      → (iface : String) (b : Bus M)
      → ((init_ethercat soem iface b).0 ≡ true) ↔ (Found iface b × Reaches 40 (ready iface b))
  unfolding init_ethercat bring_up
  init_ethercat_iff doc iface b = (
    λ up. (
      (ground arith, ground arith),
      await_operational-Reaches doc.quiet 40 (ready iface b) (λ e. absurd (omega arith))
          (ground arith),
    ),
    λ (found, reached).
        ground (arith, operational_of-Reaches 40 reached.0 (ready iface b) reached.1 reached.2),
  )

  -- With a master as it is documented: after a start that succeeds the flag is set, the master is in
  -- the operational state and the chosen slave is one of the bus; after one that fails the flag is
  -- what it was.
  pub init_ethercat-slave :
      IsDocumented
      → (iface : String) (b : Bus M)
      → let result = init_ethercat soem iface b in
        ((result.0 ≡ true)
          → (result.1.operational ≡ true)
            × (state result.1.master ≡ state_operational)
            × (le_ℤ (pos 1) result.1.slave_index ≡ true)
            × (le_ℤ result.1.slave_index (slave_count (config_init (init iface b.master).1).1)
                ≡ true))
        × ((result.0 ≡ false) → result.1.operational ≡ b.operational)
  unfolding init_ethercat bring_up
  init_ethercat-slave doc iface b =
      let found : ℤ × M = config_init (init iface b.master).1 in
      (
        λ up. (
          ground arith,
          ground arith,
          ground (
            arith,
            doc.counted (init iface b.master).1,
            choose_slave_bounds b.slave_index (slave_count found.1),
          ),
          ground (
            arith,
            doc.counted (init iface b.master).1,
            choose_slave_bounds b.slave_index (slave_count found.1),
          ),
        ),
        λ down. ground arith,
      )
