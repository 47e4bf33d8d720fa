-- ===== src/Ethercat/Axis/Copy.antt =====
-- cpp/src/epos_control/include/ethercat/axis_config.hpp: a copy of the waveform while another thread
-- sets it.
use motor_control.Base.{ℕ, zero, suc, Bool, true, false, ◌≡◌, ◌≤◌, refl, List, [], ◌∷◌, arith}
use motor_control.Waveform.{WaveformConfig}
use motor_control.Ethercat.Axis.{
  DoubleBuffer, Move, buffer_at, get_copy, write_standby, switch_active, move, moves, buffers_at,
  copy_during,
}

module _ {F : Type 0} where
  -- At most one set: writes come before the switch, and nothing after it.
  abbrev pub IsOneSet : Bool → List (Move F) → Type 0
  IsOneSet switched [] = Unit
  IsOneSet true (m ∷ ms) = ⊥
  IsOneSet false (Move.write wf ∷ ms) = IsOneSet false ms
  IsOneSet false (Move.switch ∷ ms) = IsOneSet true ms

  abbrev pub switched_by : Bool → List (Move F) → Bool
  switched_by switched [] = switched
  switched_by switched (Move.write wf ∷ ms) = switched_by switched ms
  switched_by switched (Move.switch ∷ ms) = switched_by true ms

  -- Whether the writer has switched before the field `k`.
  abbrev pub switched_before : (ℕ → List (Move F)) → ℕ → Bool
  switched_before between zero = false
  switched_before between (suc k) = switched_by (switched_before between k) (between k)

  -- What the reader relies on: its buffer holds what it held, and is the active one until the switch.
  record Holds (idx : ℕ) (wf : WaveformConfig F) (switched : Bool) (b : DoubleBuffer F)
      : Type 0 where
    pub held : buffer_at b idx ≡ wf
    pub active : switched ≡ false → b.active_idx ≡ idx

  moves-Holds :
      (ms : List (Move F)) (idx : ℕ) (wf : WaveformConfig F) (switched : Bool) (b : DoubleBuffer F)
      → idx ≤ 1
      → IsOneSet switched ms
      → Holds idx wf switched b
      → Holds idx wf (switched_by switched ms) (moves ms b)
  unfolding moves move write_standby switch_active
  moves-Holds [] idx wf switched b low one h = h
  moves-Holds (m ∷ ms) idx wf true b low one h = elim one [ ]
  moves-Holds (Move.write new ∷ ms) idx wf false b low one h =
      moves-Holds ms idx wf false (write_standby new b) low one (ground (arith, h.held, h.active))
  moves-Holds (Move.switch ∷ ms) idx wf false b low one h =
      moves-Holds ms idx wf true (switch_active b) low one (ground (arith, h.held))

  buffers-Holds :
      (between : ℕ → List (Move F)) (b : DoubleBuffer F)
      → b.active_idx ≤ 1
      → ((k : ℕ) → IsOneSet (switched_before between k) (between k))
      → (k : ℕ)
      → Holds b.active_idx (get_copy b) (switched_before between (suc k)) (buffers_at between b k)
  unfolding buffers_at get_copy
  buffers-Holds between b low one zero =
      moves-Holds (between 0) b.active_idx (buffer_at b b.active_idx) false b low (one 0)
        (record { held = refl; active = λ e. refl })
  buffers-Holds between b low one (suc k) =
      moves-Holds (between (suc k)) b.active_idx (buffer_at b b.active_idx)
        (switched_before between (suc k)) (buffers_at between b k) low (one (suc k))
        (buffers-Holds between b low one k)

  -- With a buffer index of at most 1: a copy that is taken field by field while the writer
  -- makes at most one set, at any point and split in any way, is the waveform that was active
  -- when the reader loaded the index.
  pub copy_during_lem :
      (between : ℕ → List (Move F)) (b : DoubleBuffer F)
      → b.active_idx ≤ 1
      → ((k : ℕ) → IsOneSet (switched_before between k) (between k))
      → copy_during between b ≡ get_copy b
  unfolding copy_during
  copy_during_lem between b low one =
      let held = λ (k : ℕ). (buffers-Holds between b low one k).held in
      cc (held 0, held 1, held 2, held 3, held 4, held 5, held 6, held 7, held 8, held 9)
