-- ===== src/Node/Feedback/Extremes.antt =====
-- cpp/src/epos_control/src/epos_motor_node.cpp: the extremes that publish_diag_summary computes.
use motor_control.Base.{ℤ, ◌≤ℤ◌, List, [], ◌∷◌, All, arith}
use motor_control.Node.Feedback.{Summary, summarise, add_sample}

-- A sample within the extremes of a summary.
abbrev pub IsWithin : Summary → ℤ → Type 0
IsWithin s dt = (s.min_dt ≤ℤ dt) × (dt ≤ℤ s.max_dt)

add_sample_lem :
    (expected dt : ℤ) (s : Summary)
    → let a = add_sample expected dt s in
      IsWithin a dt × (a.min_dt ≤ℤ s.min_dt) × (s.max_dt ≤ℤ a.max_dt)
unfolding add_sample
add_sample_lem expected dt s = ground arith

-- The extremes only widen.
summarise_widens :
    (expected : ℤ) (dts : List ℤ) (s : Summary)
    → ((summarise expected dts s).min_dt ≤ℤ s.min_dt)
      × (s.max_dt ≤ℤ (summarise expected dts s).max_dt)
unfolding summarise
summarise_widens expected [] s = ground arith
summarise_widens expected (dt ∷ dts) s =
    let a = add_sample expected dt s in
    ground (arith, add_sample_lem expected dt s, summarise_widens expected dts a)

-- Every sample that is summarised lies between the minimum and the maximum of the summary.
pub summarise_bounds :
    (expected : ℤ) (dts : List ℤ) (s : Summary)
    → All (λ dt. IsWithin (summarise expected dts s) dt) dts
unfolding summarise
summarise_bounds expected [] s = tt
summarise_bounds expected (dt ∷ dts) s =
    let a = add_sample expected dt s in
    let w = summarise_widens expected dts a in
    let here : IsWithin (summarise expected dts a) dt =
      ground (arith, add_sample_lem expected dt s, w) in
    (here, summarise_bounds expected dts a)
