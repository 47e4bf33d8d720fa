-- ===== src/Node/Feedback/Averages.antt =====
-- cpp/src/epos_control/src/epos_motor_node.cpp: the mean period that publish_diag_summary publishes.
use motor_control.Base.{ℕ, ◌*◌, ◌^◌, ◌≤◌, ◌<◌, ◌≡◌, ℤ, pos, ◌≤ℤ◌, List, All, length, map}
use motor_control.Node.State.{Node}
use motor_control.Node.Feedback.{Summary, summarise, no_summary, average, DiagSummary}

-- A summary of `n` samples below 2^31 that are not negative: its sum lies between `n` times its
-- extremes.
pub record Tally (s : Summary) (n : ℕ) : Type 0 where
  pub total : ℕ
  pub low : ℕ
  pub high : ℕ
  pub sum : s.sum_dt ≡ pos total
  pub min : s.min_dt ≡ pos low
  pub max : s.max_dt ≡ pos high
  pub above : n * low ≤ total
  pub below : total ≤ n * high
  pub small : high < 2 ^ 31

-- What a summary of periods promises.
abbrev pub Summarises : List ℕ → DiagSummary → Type 0
Summarises ks r =
    (r.count ≡ length ks)
    × (r.min_dt ≤ℤ r.avg_dt)
    × (r.avg_dt ≤ℤ r.max_dt)
    × All (λ dt. (r.min_dt ≤ℤ dt) × (dt ≤ℤ r.max_dt)) (map pos ks)

-- The summary of what was drained.
abbrev summary_of : ℤ → ℕ → List ℤ → DiagSummary
summary_of expected count dts =
    let s = summarise expected dts no_summary in
    record {
      count = count;
      avg_dt = average s.sum_dt count;
      min_dt = s.min_dt;
      max_dt = s.max_dt;
      avg_jitter = average s.sum_jitter count;
    }
