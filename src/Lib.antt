-- ===== src/Lib.antt =====
-- The softswitch of POETSII/toy_softswitch: many devices share a hardware thread, and the softswitch
-- takes packets to their handlers and sends what they want to send.
--
-- The parts. A thread's main loop asks the mailbox what it can do and then receives, sends or looks
-- for idle work. All three end in a poll of the device concerned, its ready-to-send handler, which
-- decides whether the device stands on the ready-to-send list; a send serves the head of that list.
-- Messages to the host wait in a circular buffer and go before all others. The mailbox of the
-- simulated hardware hands slots between the thread and the network.
--
-- Which file models what (paths from the root of the repository; a function keeps its name in
-- snake_case, and a file's children hold the proofs about it):
--   Context, Context/Host    include/softswitch.hpp: the structs as records
--   Checksum                 include/softswitch.hpp: hash_struct_init and hash_struct_check
--   Rts                      src/softswitch/softswitch_rts.cpp; Rts/Unordered sees the list as a set
--   Devices                  the loop over a thread's devices
--   Init                     src/softswitch/softswitch_init.cpp
--   Send                     src/softswitch/softswitch_on_send.cpp
--   Receive                  src/softswitch/softswitch_on_receive.cpp
--   Idle                     src/softswitch/softswitch_on_idle.cpp, softswitch_on_hardware_idle.cpp
--   Host                     src/softswitch/softswitch_hostmessaging.cpp and deltaCycles of
--                            softswitch_perfmon.cpp, log_peel_params of
--                            include/softswitch_hostmessaging.hpp; Host/Log has the log calls
--   Main                     src/softswitch/softswitch_main.cpp: one round of the loop; Config has the
--                            build's switches, and hardware idle is on unless a build says otherwise
--   Wiring, */Wires          what no operation changes of a thread: how its devices are wired
--   System                   several threads that run the main loop, and the packets between them
--   Profile                  the build with SOFTSWITCH_ENABLE_PROFILE: what the handlers, Init and the
--                            main loop count, and softswitch_perfmon.cpp in Profile/Export
--   Mailbox                  src/tinsel/tinsel_mbox.hpp: class TinselMbox
--   Simulator                src/tinsel/tinsel_on_unix.cpp, tinsel_on_mpi.cpp: the threads that carry
--                            the mailboxes' messages
--   Runtime                  src/true_tinsel/true_tinsel.cpp: memcpy to strcmp, and tinsel_memcpy_T of
--                            include/tinsel_api.hpp
--   Applications             src/applications: ring, edge_props and barrier. Ring/Token,
--                            EdgeProps/Ticks and Barrier/Network put their handlers into a run of the
--                            whole program, with messages delivered in any order; Barrier/OnThread
--                            ties the handlers to the softswitch
--   Examples, */Tests        concrete contexts, and the theorems applied to them
--
-- State. A thread is a PThreadContext; its devices are a function from indices, with num_devices of
-- them, and a DeviceContext pointer is an optional index, `none` for null. Operations take the state
-- and return the new one. A read through null or past an array is undefined behaviour, and the
-- operation is then `none`; the theorems say where it cannot happen. `Yields r P` says that r is
-- defined and P holds of its result.
--
-- Numbers are natural numbers. Counters that the code wraps at 32 bits are taken modulo 2^32; indices,
-- sizes and addresses stay as they are.
--
-- Fuel. A list walk has one round more than there are devices, enough as a list holds each once. The
-- binary search has one round more than there are bindings. right_most_one has 32 rounds for 32 bits.
-- The drain of the host buffer has 40 rounds for at most 39 messages. strlen and strcmp take their
-- fuel as an argument, as only the memory bounds them.
--
-- Parameters. What the application does is App and the handlers in the vtables. The bytes of a
-- hostMsg are a parameter, as hostMsg.hpp is not in the repository; so are HOST_MSG_PAYLOAD and what
-- stands on the stack where a message is declared. What the mailbox answers in a round of the main
-- loop is the argument Hardware.
--
-- Not modelled: the places where the program logs, how the simulators start threads and open
-- sockets, the bindings to tinsel.h, the application debugger adb, and vsnprintf, which is commented
-- out. Assertions are compiled out, except in Mailbox, Simulator and Host/Log, where a failed one is
-- `none`, and in the checks of Rts; those around hardware idle (Idle/Asserts) and of the handlers of
-- barrier and edge_props are functions of their own.
pub mod Applications
pub mod Checksum
pub mod Context
pub mod Devices
pub mod Examples
pub mod Host
pub mod Idle
pub mod Init
pub mod Mailbox
pub mod Main
pub mod Prelude
pub mod Profile
pub mod Receive
pub mod Rts
pub mod Runtime
pub mod Send
pub mod Simulator
pub mod System
pub mod Wiring
