-- ===== src/Util/Realtime.antt =====
-- cpp/src/epos_control/include/util/realtime_config.hpp, and its use by try_configure_realtime of
-- cpp/src/epos_control/src/epos_motor_node.cpp. The calls of the system are a parameter.
use motor_control.Base.{
  Bool, true, false, ℤ, pos, le_ℤ, ◌≡◌, ◌↔◌, List, [], ◌∷◌, ◌++◌, if◌then◌else◌, arith,
}

-- Whether mlockall, sched_setscheduler with a priority and pthread_setaffinity_np with a core succeed.
pub record Kernel : Type 0 where
  pub mlockall : Bool
  pub setscheduler : ℤ → Bool
  pub setaffinity : ℤ → Bool

pub record RealtimeConfigResult : Type 0 where
  pub mlock_ok : Bool
  pub scheduler_ok : Bool
  pub affinity_requested : Bool
  pub affinity_ok : Bool

unfoldable pub configure_realtime_thread : Kernel → ℤ → ℤ → RealtimeConfigResult
configure_realtime_thread kernel rt_priority rt_cpu =
    let pinned = le_ℤ (pos 0) rt_cpu in
    record {
      mlock_ok = kernel.mlockall;
      scheduler_ok = kernel.setscheduler rt_priority;
      affinity_requested = pinned;
      affinity_ok = if pinned then kernel.setaffinity rt_cpu else false;
    }

-- The messages of try_configure_realtime.
pub data Notice : Type 0 where
  mlock_failed scheduler_failed pinned pin_failed : Notice

unfoldable pub try_configure_realtime : Kernel → ℤ → ℤ → List Notice
unfolding configure_realtime_thread
try_configure_realtime kernel rt_priority rt_cpu =
    let result = configure_realtime_thread kernel rt_priority rt_cpu in
    let affinity =
      if result.affinity_requested
      then (if result.affinity_ok then Notice.pinned ∷ [] else Notice.pin_failed ∷ [])
      else [] in
    (if result.mlock_ok then [] else Notice.mlock_failed ∷ [])
    ++ ((if result.scheduler_ok then [] else Notice.scheduler_failed ∷ []) ++ affinity)

-- The loop is set up without a message exactly when memory is locked, the scheduler is set and no
-- core was asked for.
quiet_iff :
    (kernel : Kernel) (rt_priority rt_cpu : ℤ)
    → (try_configure_realtime kernel rt_priority rt_cpu ≡ []) ↔ (
        (kernel.mlockall ≡ true)
        × (kernel.setscheduler rt_priority ≡ true)
        × (le_ℤ (pos 0) rt_cpu ≡ false))
unfolding try_configure_realtime configure_realtime_thread
quiet_iff kernel rt_priority rt_cpu = ground arith
