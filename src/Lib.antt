-- ===== src/Lib.antt =====
-- Verification library of emblib, a C++ library for embedded targets (the directory emb/): fixed
-- capacity containers, buffers shared between an interrupt and a thread, a CANopen node, storage,
-- schedulers, filters and control blocks.
--
-- Base holds what the modules share: lists measured by native numbers, options and `std::expected`
-- as results, masks, orders, and signed integers with their two's complement.
--
-- Container: the four containers over a fixed array of slots.
--   Slots, View, Window, Loops   the array `data_` of emb/container/*.hpp: a slot holds a value or is
--     dead; `construct_at` on a live slot, and `destroy_at` or a read on a dead one, are faults
--     (result `none`), and so is a precondition that `ASSUME` or a contract states. `size_type` is 32
--     bits wide and its sums wrap at 2^32; a capacity is at most 2^31, so that no index sum wraps.
--   CircularBuffer, InplaceQueue, InplaceVector, InplaceStack   one module per header, one function
--     per member function, under its name (`try_push_*` is `try_emplace_*`, and `try_pop_*` is
--     `take_*`, where a name would be one of the specification's).
--     The copies and moves are those of element types that are not trivially copyable; CircularBuffer
--     has the defaulted operators of the others too.
--   Deque, Fifo, Bounded   the bounded lists that the containers are compared with.
--
-- Concurrent: emb/concurrent. isr_spsc_inplace_queue.hpp (SpscQueue), triple_buffer.hpp
-- (TripleBuffer), double_buffer.hpp (DoubleBuffer), and seqlock.hpp and isr_seqlock.hpp (Seqlock, whose
-- Kind tells them apart). Both sides are programs of single accesses of the shared state, a schedule is
-- the list of whose access comes next, and all orders are allowed. The fences are taken to give that
-- order to both sides, as they do on one core. Queue indices and sequence numbers wrap at 2^32, and the
-- queue's capacity is a power of two up to 2^31.
--
-- Can: emb/can and emb/can/canopen.
--   Can   emb/can.hpp and bus.hpp: frames, and the driver as a parameter: a state of the bus, and what
--     `send` and `add_filter` do to it.
--   Types, Sdo, Od   canopen/types.hpp, sdo.hpp and od.hpp: COB-IDs, the frames of a transfer with
--     their bit fields, and the values of the object dictionary.
--   Dictionary, SdoServer   canopen/detail/sdo_server.hpp. `std::sort` is an insertion sort, and
--     `std::lower_bound` a scan for the first entry that is not before the key. The loop of `drain`
--     runs on a count of 17, one more than the queue's capacity, which is enough for a queue that
--     holds a list.
--   Nmt, Producers, Consumers   canopen/detail/nmt_slave.hpp, hb_producer.hpp, sync_producer.hpp,
--     emcy_producer.hpp, tpdo_producer.hpp, rpdo_consumer.hpp, hb_consumer.hpp and hb_consumer.cpp.
--   Server   canopen/server.hpp, which composes the services: `run` empties the receive queue
--     through `dispatch_rx` (NMT, then SDO, then receive PDOs, then heartbeats), and then lets each
--     service act at the time it has read.
--   RawNode   raw/node.hpp: frames by format, id and mask, timeouts, and periodic frames.
-- The application is a state that access functions, handlers, providers and the clock read and
-- change; a handler that calls back into the server is not modelled. The receive queue and the
-- lists of slots are their contents: that the containers under them keep those is Container's and
-- Concurrent's.
--
-- Nvm: emb/nvm.hpp. Layout and Registry are the classes of those names, for a list of parameters; the
-- storage, the hash and the checksum are parameters, as in the source, and Hash has the functions
-- that `layout` takes by default. `reset_all` steps its offset from entry to entry, where the source
-- asks `offset_of` for each index.
--
-- Eeprom: emb/memory/eeprom/eeprom.cpp and eeprom.hpp, and emb/memory/memory_def.hpp. The driver
-- and the checksum are parameters; the timeouts belong to the driver; `std::size_t` has 32 bits.
-- The branches of the source for the C28x, and the overloads that copy an object to its bytes, are
-- left out.
--
-- Scheduler: emb/scheduler/basic_scheduler.hpp. A delegate is an id that a parameter runs, so that a
-- callback may change the application's state and call the scheduler back. The two loops of `run`
-- run on counts of 17 and 5, one more than the lists they walk can hold.
--
-- Fsm: emb/fsm/fsm_v3.hpp, and fsm_v2.hpp in TransitionTable. A state is the index of its alternative
-- and a value; the static functions of the states and of the table are parameters, as `if constexpr`
-- and the policy select them. An action that calls its own machine back is not modelled.
--
-- Trouble: emb/trouble.hpp, with the mirror in Trouble.Mirror. A row of the double buffers is the value
-- that was published last: that a load returns it is Concurrent.DoubleBuffer's. The loops over the levels
-- of a status count in the underlying type of the levels and wrap; they run on a count of one round more
-- than that type has values, which is enough for every loop that ends.
--
-- Filter: emb/filter/moving_average_filter.hpp and median_filter.hpp, over the circular buffer of
-- Container. The type of the values is a parameter with its arithmetic or its order; `std::sort` is an
-- insertion sort, and a push of many values is the sequence of the pushes.
--
-- Controller: emb/controller.hpp, over a parameter for the arithmetic and the order of its numbers.
--
-- Mmio: emb/mmio.hpp. A register, a mask and a value are lists of bits of one width; what the hardware
-- does with a register between two accesses is not modelled.
--
-- Actuator: emb/actuator/*.hpp, over any encoder, driver, sensor and decoder, which may change a state
-- of the hardware; Discrete has those of discrete.hpp, on the pins of emb/gpio.hpp (Gpio).
--
-- Not modelled: code on floating point (emb/foc, the exponential filters of emb/filter, emb/math,
-- emb/generator, emb/units), the type-level helpers (emb/meta, emb/functional.hpp, emb/pipe.hpp), and,
-- so far, emb/fsm/fsm_sp_cpp23.hpp, emb/control.hpp, emb/chrono.hpp and emb/sensor. The memory that
-- the language's own objects take is not modelled either, nor is the weak ordering of a multi-core
-- machine.
pub mod Actuator
pub mod Base
pub mod Can
pub mod Concurrent
pub mod Container
pub mod Controller
pub mod Eeprom
pub mod Filter
pub mod Fsm
pub mod Gpio
pub mod Mmio
pub mod Nvm
pub mod Scheduler
pub mod Trouble
