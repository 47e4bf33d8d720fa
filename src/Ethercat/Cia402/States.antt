-- ===== src/Ethercat/Cia402/States.antt =====
-- cpp/src/epos_control/include/ethercat/cia402_state.hpp: the states of the drive exclude each other.
use motor_control.Base.{ℕ, ◌≡◌, Bool, true, false, bit_and, arith}
use motor_control.Base.Bits.{bit_and-lowest, bit_and-fourth, bit_and-eight}
use motor_control.Ethercat.Cia402.{
  control_shutdown, control_switch_on, control_enable_operation, is_fault, is_operation_enabled,
  is_switched_on, is_ready_to_switch_on, next_control_word,
}

-- Switch on disabled, the state of a drive that has started, which the program does not name.
abbrev pub IsDisabled : ℕ → Type 0
IsDisabled status = bit_and status 0x004F ≡ 0x0040

-- The three states after it, by their tests.
abbrev pub IsReady : ℕ → Type 0
IsReady status = is_ready_to_switch_on status ≡ true

abbrev pub IsSwitchedOn : ℕ → Type 0
IsSwitchedOn status = is_switched_on status ≡ true

abbrev pub IsEnabled : ℕ → Type 0
IsEnabled status = is_operation_enabled status ≡ true

module _ (status : ℕ) where
  -- A drive in fault is in none of the states, and the word for it is shutdown.
  pub fault_word :
      (enable : Bool) → is_fault status ≡ true → next_control_word status enable ≡ control_shutdown
  unfolding is_fault next_control_word is_operation_enabled is_switched_on is_ready_to_switch_on
  fault_word enable h = ground (arith, bit_and-fourth status 0x006F, bit_and-eight status)

  pub disabled_word :
      IsDisabled status
      → (is_fault status ≡ false) × (next_control_word status true ≡ control_shutdown)
  unfolding is_fault next_control_word is_operation_enabled is_switched_on is_ready_to_switch_on
  disabled_word h = ground (
    arith,
    bit_and-fourth status 0x004F,
    bit_and-lowest status 0x004F,
    bit_and-lowest status 0x006F,
    bit_and-eight status,
  )

  pub ready_word :
      is_ready_to_switch_on status ≡ true
      → (is_fault status ≡ false) × (next_control_word status true ≡ control_switch_on)
  unfolding is_fault next_control_word is_operation_enabled is_switched_on is_ready_to_switch_on
  ready_word h = ground (arith, bit_and-fourth status 0x006F, bit_and-eight status)

  pub switched_word :
      is_switched_on status ≡ true
      → (is_fault status ≡ false) × (next_control_word status true ≡ control_enable_operation)
  unfolding is_fault next_control_word is_operation_enabled is_switched_on
  switched_word h = ground (arith, bit_and-fourth status 0x006F, bit_and-eight status)

  pub enabled_word :
      is_operation_enabled status ≡ true
      → (is_fault status ≡ false) × (next_control_word status true ≡ control_enable_operation)
  unfolding is_fault next_control_word is_operation_enabled
  enabled_word h = ground (arith, bit_and-fourth status 0x006F, bit_and-eight status)
