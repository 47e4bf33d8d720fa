-- ===== src/Waveform/Window.antt =====
-- cpp/src/epos_control/include/waveform/waveform_generator.hpp: when a waveform is silent.
use motor_control.Base.{◌≡◌, ◌⊎◌, Bool, true, ◌&&◌, ℤ, pos, arith, inl, inr, Bool-cases, to_i32}
use motor_control.Double.{Double, nought, ◌≼◌}
use motor_control.Waveform.{WaveformConfig, is_none, compute, elapsed_s, wave_value}

and_parts : {a b : Bool} → (a && b) ≡ true → (a ≡ true) × (b ≡ true)
and_parts h = ground (arith, h)

module _ {F : Type 0} ⦃d : Double F⦄ where
  open d use {lt, le, lround}

  -- The conditions under which a waveform has no value: it is off, it has not started, or it has a
  -- duration that is over.
  data IsSilent (wf : WaveformConfig F) (now : ℤ) : Type 0 where
    off : is_none wf.type ≡ true → IsSilent wf now
    early : lt (elapsed_s now wf.start_ns) nought ≡ true → IsSilent wf now
    over :
        lt nought wf.duration_s ≡ true → wf.duration_s ≼ elapsed_s now wf.start_ns → IsSilent wf now

  silent : (wf : WaveformConfig F) (now : ℤ) → IsSilent wf now → compute wf now ≡ pos 0
  unfolding compute
  silent wf now (IsSilent.off h) = ground (arith, h)
  silent wf now (IsSilent.early h) = ground (arith, h)
  silent wf now (IsSilent.over h g) = ground (arith, h, g)

  -- The value of a waveform is 0 if it is silent, that is off, not yet started or past its
  -- positive duration; else it is the rounded value of its type at the elapsed time.
  compute_lem :
      (wf : WaveformConfig F) (now : ℤ)
      → (IsSilent wf now × (compute wf now ≡ pos 0))
        ⊎ (compute wf now ≡ to_i32 (lround (wave_value wf.type wf (elapsed_s now wf.start_ns))))
  unfolding compute
  compute_lem wf now =
      let elapsed = elapsed_s now wf.start_ns in
      elim (Bool-cases (is_none wf.type)) [
        | inl h ↦ inl (IsSilent.off h, silent wf now (IsSilent.off h))
        | inr on ↦ elim (Bool-cases (lt elapsed nought)) [
          | inl h ↦ inl (IsSilent.early h, silent wf now (IsSilent.early h))
          | inr begun ↦ elim (Bool-cases (lt nought wf.duration_s && le wf.duration_s elapsed)) [
            | inl h ↦
                let both = and_parts h in
                inl (IsSilent.over both.0 both.1, silent wf now (IsSilent.over both.0 both.1))
            | inr running ↦ inr (ground (arith, on, begun, running))
          ]
        ]
      ]
