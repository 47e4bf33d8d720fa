-- ===== src/Ethercat/Pdo.antt =====
-- cpp/src/epos_control/include/ethercat/axis_config.hpp: the process data that master and drive
-- exchange each cycle, and the registers of epos_registers.hpp.
use motor_control.Base.{ℕ, ℤ}

-- struct OutPDO
pub record OutPdo : Type 0 where
  pub control_word : ℕ
  pub mode_of_operation : ℤ
  pub target_position : ℤ
  pub target_velocity : ℤ
  pub target_torque : ℤ

-- struct InPDO
pub record InPdo : Type 0 where
  pub status_word : ℕ
  pub actual_position : ℤ
  pub actual_velocity : ℤ
  pub actual_torque : ℤ

-- namespace EposReg
pub data Register : Type 0 where
  rx_pdo_mapping tx_pdo_mapping sm2_pdo_assign sm3_pdo_assign sync_manager_param : Register
  error_code control_word status_word fault_reaction mode_of_operation : Register
  actual_position actual_velocity target_torque actual_torque : Register
  target_position target_velocity abort_connection : Register

abbrev pub address : Register → ℕ
address Register.rx_pdo_mapping = 0x1601
address Register.tx_pdo_mapping = 0x1A01
address Register.sm2_pdo_assign = 0x1C12
address Register.sm3_pdo_assign = 0x1C13
address Register.sync_manager_param = 0x1C32
address Register.error_code = 0x603F
address Register.control_word = 0x6040
address Register.status_word = 0x6041
address Register.fault_reaction = 0x605E
address Register.mode_of_operation = 0x6060
address Register.actual_position = 0x6064
address Register.actual_velocity = 0x606C
address Register.target_torque = 0x6071
address Register.actual_torque = 0x6077
address Register.target_position = 0x607A
address Register.target_velocity = 0x60FF
address Register.abort_connection = 0x6007
