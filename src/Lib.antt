-- ===== src/Lib.antt =====
-- The motor controller of the repository: the ROS node `epos_motor_node`, which drives one EPOS4 through
-- EtherCAT. The program is C++ under cpp/src/epos_control; `include` and `src` below are its directories
-- cpp/src/epos_control/include and cpp/src/epos_control/src, and the node is
-- cpp/src/epos_control/src/epos_motor_node.cpp. Its parts, and the files that model them:
--
--   Node/State, Start      the members of EposNode, and what its constructor leaves
--   Node/Life              the constructor with its early ends, the feedback timer with the bus, and the
--                          destructor
--   Node/Topics            the callbacks that store one value
--   Node/Commands,         the handlers of waveform, force and log commands
--     ForceCommands,
--     LogCommands
--   Node/Cycle             control_loop_rt, one round of it, in stages: Timing (clock and exchange),
--                          Mode (drive state, fault edge, mode), Command (the command of the mode),
--                          Force (selection, limit, force control), Finish (control word, safety guard,
--                          process data, log record); its children Word, Latch and Silence
--                          follow the control word, a tripped limit and missing messages over
--                          several rounds, Logged the logger, and Follows a round of velocity,
--                          position or force control in which nothing stops the motor
--   Node/Feedback          the timers that publish feedback and diagnostics
--   Node/Step              all of these as events, and runs of events
--   Safety                 include/safety: the output guard and the force limit
--   Control                include/control: slew rate, velocity, position, PID, tanh and force control
--   Waveform               include/waveform: the generator, and the plans of hysteresis tests
--   Commands               include/commands: both command protocols, text (v1) and messages (v2), and
--                          in Spelling when a text says what a message says
--   Ring, Logging          include/util/simple_ring_buffer.hpp and include/logging: rings and the logger
--   Ethercat               include/ethercat and src/epos_setup.cpp: CiA 402, process data, mapping, double
--                          buffers, error texts; and init_ethercat (Master)
--   Units                  include/util/motor_units.hpp
--   Util                   include/util and include/logging/file_utils.hpp: the network interface, log
--                          directories, real-time scheduling
--   Double                 the floating-point numbers, see below
--   Base                   integers, words, lists and tests that the others share
--   Tests                  the theorems applied to concrete inputs
--
-- Callbacks and the real-time thread share the node through atomics, double buffers and rings. Here a
-- callback, a timer, a round of the logger and a round of the loop are each one step on the record `Node`,
-- and any order of them is a run. Where threads meet inside a step, the meeting is modelled on its own: a copy
-- of a double buffer while it is set (copy_during of Ethercat/Axis), a drain of a ring while the producer
-- pushes (drain_during of Ring), and the rounds of the logger between which the loop pushes
-- (Logging/AsyncLogger/Flush).
--
-- Integers are ℤ over the native numbers; each conversion and each sum that can leave its C++ type wraps, by
-- to_i8, to_i16, to_i32, to_i64 or to_u64. `double` is the interface Double: the platform defines it, and
-- theorems that depend on its order or arithmetic take Double/Laws or Double/Rounding as hypotheses.
-- Double/Fixed is a concrete instance, fixed-point numbers with a NaN. std::istringstream is the interface
-- Commands/Reader. Which directories can be made and which files opened is the argument Outside. A round
-- reads its clock, the working counter and the drive's process data as inputs. The EtherCAT master is the
-- interface Soem of Ethercat/Master: its calls on a state of its own, and its constants. The drive is the
-- interface Drive of Node/Cycle/Word/Enable, which may take several exchanges for a transition. There is no
-- fuel: every loop is a recursion over a list or a count, which is that of the source for the two waits of
-- init_ethercat (50 and 40 rounds).
--
-- Not modelled: the inside of the EtherCAT master SOEM (cpp/src/soem, another project), the creation of
-- ROS entities and threads, sleeping, the text of the rows and the
-- permissions of log files, what is printed, and the
-- Python programs under py.
mod Base
pub mod Double
pub mod Units
pub mod Util
pub mod Waveform
pub mod Safety
pub mod Control
pub mod Ring
pub mod Logging
pub mod Commands
pub mod Node
pub mod Ethercat
pub mod Tests
