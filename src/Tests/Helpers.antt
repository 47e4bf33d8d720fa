-- ===== src/Tests/Helpers.antt =====
-- Runs of the helpers around the system, of the logger's thread and of the node's end.
use motor_control.Base.{◌≡◌, refl, true, false, pos, [], ◌∷◌, none, some}
use motor_control.Double.Fixed.{Fixed, fixed_double}
use motor_control.Util.Net.{is_candidate, first_interface, detect_default_iface}
use motor_control.Util.Files.{FileSystem, ensure_parent_dir}
use motor_control.Util.Realtime.{Kernel, Notice, configure_realtime_thread, try_configure_realtime}
use motor_control.Ethercat.Master.{recover, shut_down, request_operational}
use motor_control.Logging.AsyncLogger.{init, process_rounds, initial_logger}
use motor_control.Node.Start.{start_node}
use motor_control.Node.Feedback.{wkc_recovery_due, handle_pending_fault_log}
use motor_control.Node.Life.{Built, destroy, handle_wkc_recovery, publish_feedback}
use motor_control.Tests.Data.{started}
use motor_control.Tests.Master.{soem, bench, built_bus}

chosen_by_name : detect_default_iface (λ names. names) none ("lo" ∷ "enp3s0" ∷ []) ≡ "enp3s0"
unfolding detect_default_iface first_interface is_candidate
chosen_by_name = refl

chosen_by_environment : detect_default_iface (λ names. names) (some "eth1") ("enp3s0" ∷ []) ≡ "eth1"
unfolding detect_default_iface
chosen_by_environment = refl

abbrev read_only : FileSystem
read_only = record {
  parent_path = λ path. "logs";
  create_directories = λ path. some "Permission denied";
}

no_parent : (ensure_parent_dir read_only "logs/a.csv").ok ≡ false
unfolding ensure_parent_dir
no_parent = refl

abbrev kernel : Kernel
kernel = record { mlockall = true; setscheduler = λ priority. false; setaffinity = λ core. true }

notices :
    try_configure_realtime kernel (pos 50) (pos 2) ≡ Notice.scheduler_failed ∷ Notice.pinned ∷ []
unfolding try_configure_realtime configure_realtime_thread
notices = refl

-- A bus that is in the wrong state is asked for the operational one.
recovered : recover soem bench ≡ record bench { level = 8 }
unfolding recover request_operational
recovered = refl

closed : (destroy soem (Built.live started built_bus)).1 ≡ built_bus.master
unfolding destroy shut_down
closed = refl

started_thread : (init {F = Fixed} initial_logger).running ≡ true
unfolding init initial_logger
started_thread = refl

idle_rounds : (process_rounds {F = Fixed} 0 initial_logger).log_row_count ≡ 0
unfolding process_rounds initial_logger
idle_rounds = refl

quiet_feedback : (publish_feedback soem none started bench).2 ≡ bench
unfolding publish_feedback handle_wkc_recovery wkc_recovery_due handle_pending_fault_log start_node
quiet_feedback = refl
