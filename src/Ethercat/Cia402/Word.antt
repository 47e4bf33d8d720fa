-- ===== src/Ethercat/Cia402/Word.antt =====
-- cpp/src/epos_control/include/ethercat/cia402_state.hpp: the control word for a status word.
use motor_control.Base.{ℕ, ◌≡◌, ◌⊎◌, Bool, true, ◌||◌, arith}
use motor_control.Ethercat.Cia402.{
  control_shutdown, control_switch_on, control_enable_operation, is_operation_enabled,
  is_switched_on, is_ready_to_switch_on, next_control_word,
}

-- next_control_word asks to switch on only if enabling is wanted and the drive is ready for it,
-- and to enable operation only if enabling is wanted and the drive is switched on or in
-- operation; else it is shutdown.
pub word_lem :
    (status : ℕ) (enable : Bool)
    → let word = next_control_word status enable in
      (word ≡ control_shutdown)
      ⊎ ((word ≡ control_switch_on) × (enable ≡ true) × (is_ready_to_switch_on status ≡ true))
      ⊎ ((word ≡ control_enable_operation)
          × (enable ≡ true)
          × ((is_switched_on status || is_operation_enabled status) ≡ true))
unfolding next_control_word
word_lem status enable = ground arith
