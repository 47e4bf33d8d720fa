-- ===== src/Ethercat/Setup.antt =====
-- cpp/src/epos_control/src/epos_setup.cpp: the SDO writes that configure the drive, in order. The
-- results of ec_SDOwrite are ignored by the source, so that the function is its sequence of writes.
use motor_control.Base.{ℕ, ◌+◌, ◌*◌, ◌^◌, List, [], ◌∷◌, ◌++◌}
use motor_control.Ethercat.Pdo.{Register, address}

-- One ec_SDOwrite: object, sub-index, size of the value in bytes, value.
pub record SdoWrite : Type 0 where
  pub object : Register
  pub sub_index : ℕ
  pub size : ℕ
  pub value : ℕ

abbrev write : Register → ℕ → ℕ → ℕ → SdoWrite
write r i n v = record { object = r; sub_index = i; size = n; value = v }

-- (static_cast<uint32_t>(register) << 16) | bits: the low half is free, so the or is a sum.
abbrev pub map_entry : Register → ℕ → ℕ
map_entry r bits = address r * 2 ^ 16 + bits

unfoldable pub rx_map : List ℕ
rx_map =
    map_entry Register.control_word 0x0010
    ∷ map_entry Register.mode_of_operation 0x0008
    ∷ map_entry Register.target_position 0x0020
    ∷ map_entry Register.target_velocity 0x0020
    ∷ map_entry Register.target_torque 0x0010
    ∷ []

unfoldable pub tx_map : List ℕ
tx_map =
    map_entry Register.status_word 0x0010
    ∷ map_entry Register.actual_position 0x0020
    ∷ map_entry Register.actual_velocity 0x0020
    ∷ map_entry Register.actual_torque 0x0010
    ∷ []

-- for (int i = 0; ...) ec_SDOwrite(slave, object, i + 1, ..., &map[i], ...)
unfoldable pub write_map : Register → ℕ → List ℕ → List SdoWrite
write_map object i [] = []
write_map object i (entry ∷ entries) =
    write object (i + 1) 4 entry ∷ write_map object (i + 1) entries

-- The count to 0, the assigned PDO, the count to 1.
abbrev assign : Register → Register → List SdoWrite
assign sync_manager pdo =
    write sync_manager 0 1 0 ∷ write sync_manager 1 2 (address pdo) ∷ write sync_manager 0 1 1 ∷ []

unfoldable pub setup_epos_pdo_mapping : List SdoWrite
setup_epos_pdo_mapping =
    assign Register.sm2_pdo_assign Register.rx_pdo_mapping
    ++ (assign Register.sm3_pdo_assign Register.tx_pdo_mapping
        ++ ((write Register.abort_connection 0 2 0
              ∷ write Register.fault_reaction 0 2 0
              ∷ write Register.sync_manager_param 1 2 0
              ∷ write Register.rx_pdo_mapping 0 1 0
              ∷ write_map Register.rx_pdo_mapping 0 rx_map)
            ++ (write Register.rx_pdo_mapping 0 1 5
                ∷ write Register.tx_pdo_mapping 0 1 0
                ∷ (write_map Register.tx_pdo_mapping 0 tx_map
                    ++ (write Register.tx_pdo_mapping 0 1 4 ∷ [])))))
