-- ===== src/Ethercat/Cia402.antt =====
-- cpp/src/epos_control/include/ethercat/cia402_state.hpp: the status word of the drive and the control
-- word that answers it.
pub mod Word
pub mod States
use motor_control.Base.{ℕ, Bool, true, false, not, bit_and, ◌==◌, if◌then◌else◌}

abbrev pub control_shutdown : ℕ
control_shutdown = 0x0006

abbrev pub control_switch_on : ℕ
control_switch_on = 0x0007

abbrev pub control_enable_operation : ℕ
control_enable_operation = 0x000F

abbrev pub control_fault_reset : ℕ
control_fault_reset = 0x0080

unfoldable pub is_fault : ℕ → Bool
is_fault status_word = not (bit_and status_word 0x0008 == 0)

unfoldable pub is_operation_enabled : ℕ → Bool
is_operation_enabled status_word = bit_and status_word 0x006F == 0x0027

unfoldable pub is_switched_on : ℕ → Bool
is_switched_on status_word = bit_and status_word 0x006F == 0x0023

unfoldable pub is_ready_to_switch_on : ℕ → Bool
is_ready_to_switch_on status_word = bit_and status_word 0x006F == 0x0021

unfoldable pub next_control_word : ℕ → Bool → ℕ
next_control_word status_word enable_desired =
    if is_operation_enabled status_word
    then (if enable_desired then control_enable_operation else control_shutdown)
    else if is_switched_on status_word
    then (if enable_desired then control_enable_operation else control_shutdown)
    else if is_ready_to_switch_on status_word
    then (if enable_desired then control_switch_on else control_shutdown)
    else control_shutdown
