-- ===== src/Lib.antt =====
-- MMemphis: the management of a many-core system. Every processor runs a kernel
-- (software/kernel), which schedules its tasks and passes their messages; a management
-- application (applications/MAN_app), itself a set of tasks, maps tasks to processors and
-- establishes circuit-switched connections in the network on chip. This library models the
-- kernel, and the data of the mappers and of the NoC manager.
--
-- The kernel, software/kernel/modules:
--   Scheduler        task_scheduler.c. One call of LST is `lst`: it brings every real-time task's
--                    parameters up to date (update_real_time), searches a task in three loops
--                    (select_task), sets the timer (dynamic_slice_time), or goes idle. RealTime is
--                    `real_time_task`. Ticks of the clock are arguments.
--   Tcb              TCB.c: the task control blocks, each with its scheduling entry, and the tasks
--                    whose migration is pending.
--   Requests         task_communication.c: the table of message requests.
--   Locations        enforcer_mapping.c: the table of task locations.
--   Ctp              enforcer_sdn.c: the pairs of tasks that communicate by a circuit.
--   PendingService   pending_service.c: the services to be handled later, and their interrupt line.
--   Packet           packet.c, packet.h: the service header, and the two slots for it.
--   Kernel           One processor's globals in one state, on which the tables above stand; its
--                    children are Circuits and Setup (enforcer_sdn.c), Migration and its Target
--                    (enforcer_migration.c: the processor that a task leaves, and the one that it
--                    comes to), Services and Messages (task_communication.c), Tasks
--                    (enforcer_mapping.c), Monitor (monitor.c), and, of kernel.c in
--                    software/kernel, Syscalls, Packets (handle_packet) and Interrupts (with
--                    OS_scheduler and main).
--   Utils            utils.c: the printers of numbers.
--   Memory           The words of the tasks' pages, and copies of them.
-- The management application, applications/MAN_app:
--   Fifo             The circular FIFO of pending_service.c, token_queue.h and the two queues of
--                    connection requests: one model for the four copies of its code.
--   Mapper           mapping_includes: the processors of a cluster with their tasks and pages
--                    (processors.h, resoucer_controller.h), the applications (application.h), and the
--                    clusters (cluster_controller.h); and, in Local, the local mapper's messages from
--                    the mapping of an application to its end (local_mapper.c, common_include.h).
--   Sdn              SDN_includes and noc_manager.c: the cluster's addresses, the controller's
--                    queues, the search for a path (Hadlock, noc_manager.h), the set-up and the
--                    release of a circuit (Circuits, noc_manager.h), and the protocol by
--                    which one controller at a time routes across clusters (Token, noc_manager.c).
-- Base is shared: arrays as lists, searches, 32-bit words and calls that may spin. Tests runs the
-- code on concrete input.
--
-- A global array is a list, of any length; a pointer into it is an index. An `int` or `unsigned
-- int` is its 32-bit pattern, so -1 is 2 ^ 32 - 1, and wrap-around is written out. A function that
-- prints an error and enters `while(1)` returns `hangs` of `Outcome`. A global that a function
-- changes is an argument and a result.
--
-- A read of a register of the hardware, of the clock or of the DMNI's status for instance, is
-- numbered, and a function of its number gives the value, any value: so the order of the reads and
-- what changes between them are in the model. What a call hands to the DMNI is appended to a list.
-- A packet that arrives is an argument, its header and its payload. The waits for the DMNI to end
-- a transfer are left out. A packet carries the words that stood in memory when it was programmed; a
-- transfer of bare words also has its address, since on a circuit the kernel does not wait, and what
-- arrives is what the DMNI takes from there. A null pointer that the code follows, or a block that is not there, is `hangs` too. The local array of the
-- kernel that takes the locations of a released task (enforcer_mapping.c) has no bound here.
--
-- Fuel: the loop of RealTime that looks for the first period runs on a fuel of two rounds, which is
-- enough, as the result on real_time_task shows. The search for a path takes its fuel as an
-- argument; more than the grid has routers is enough, as the result on hadlock shows. The
-- set-up of a circuit hands its fuel to the search; the release of one runs on a fuel of its own,
-- more than the circuit has hops.
--
-- Not modelled: prints and the reports to the debugger, the assembly that saves and restores a
-- task's registers, the message loops of the other management tasks and the route across clusters, the
-- benchmarks, and the hardware itself, which other languages describe.
pub mod Base
pub mod Fifo
pub mod Packet
pub mod PendingService
pub mod Requests
pub mod Locations
pub mod Ctp
pub mod Mapper
pub mod Sdn
pub mod Tcb
pub mod Scheduler
pub mod Utils
pub mod Memory
pub mod Kernel
pub mod Tests
