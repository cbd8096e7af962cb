-- ===== src/Lib.antt =====
-- The core of P4sim: P4-programmable switches, run by the packet library of the behavioural model
-- (`bm`), inside the network simulator ns-3.
--
-- A packet goes through a v1model switch so: `P4CoreV1model::ReceivePacket` puts it into the input
-- buffer, the ingress pipeline takes it out and sends it, its clones and its copies to the egress
-- buffer, and a timer lets the egress pipeline take one packet at a time out of that and send it.
--
-- - Base: names that all share, words of fixed width, bit masks, signed numbers.
-- - Registers: utils/register-access-v1model.h, the fields kept in a packet's registers. A getter or
--   setter of the class is a function of the same name here, over a register file that is a parameter.
-- - InputBuffer: class InputBuffer of utils/p4-queue.h. The head of a list is the front of a deque. The
--   program has one thread, so waiting for room is the outcome `blocked`.
-- - EgressQueue: class NSQueueingLogicPriRL of utils/p4-queue.h, a method for a function. Its maps and
--   its vectors of fixed length are functions of the index, with the range tests of `at` written out.
--   The array of 32 heaps is read only below `nb_priorities`, which is at most 32. A heap is the list of
--   its entries in order of service. Times are whole nanoseconds; the packet time of a rate, a double
--   that ns-3 rounds, is the parameter `seconds_per`. Counters wrap at 2^64.
-- - SwitchCore: model/p4-switch-core.cc, mirroring sessions, destination addresses, time stamps.
-- - CustomHeader: model/custom-header.cc, a method for a function. The inner loops of `Serialize` and
--   `Deserialize` run on fuel, the width of the field, since each round takes at least one bit. An
--   exception, and a shift that C++ leaves undefined, is an outcome.
-- - V1model: model/p4-core-v1model.cc, a method for a function; the two pipelines are cut into their
--   commented parts. The packet library, the P4 program and the simulator's packets are the record
--   `Library`, of which no law is assumed but those of the register file and, in V1model/Sending,
--   `KeepsNs` and, in V1model/Returning, `ResubmitsOnce`. Calls of the simulator are kept in lists:
--   packets sent, events asked for. The ingress handler calls itself for a resubmitted packet; it
--   runs on fuel, and `unended` says that it had too little: a P4 program may resubmit for ever. For
--   one that resubmits a packet once at most, the number of packets waiting and one more is enough.
-- - FormatUtils: utils/format-utils.cc. A text is the list of its characters' codes; the loops on
--   numbers run on fuel for the digits or bytes of an `unsigned int`: ten decimal digits, four bytes.
-- - Link: model/custom-p2p-net-device.cc and model/p4-p2p-channel.cc. Link/Headers adds headers to what
--   a device sends, Link/Restore takes them off what it receives, Link/Transmit is the transmitter with
--   its queue, Link/Channel the channel; Link/Line puts one device in time, with the simulator that runs
--   the completions it schedules, as a step relation. A failed assertion is `none`. Packets, header
--   classes and queues are parameters; what is assumed of them is `HeaderLaws`, `Readable`, `Shrinks`
--   and `QueueLaws`, of the channel `Carries`, which Link/Channel shows for two devices. The parsing
--   loop of `RestoreHeaders` runs on fuel, for it may not end; twice the packet's bytes and two more are
--   enough where it does.
-- - SwitchDevice: model/p4-switch-net-device.cc, the ports of a switch and what is called of a core. A
--   port is the number of its device, and an address test is a parameter.
-- - FattreeTopo: utils/fattree-topo-helper.cc, `Build` with its loops. Numbers wrap at 2^32, the numbers
--   that `rand` draws are a parameter, and a write beyond the vector of switches is `none`.
--   FattreeTopo/Grown follows the counts through the loops, FattreeTopo/Joints the links.
-- - Runtime: model/p4-core-v1model.cc, the run-time calls of a core, a function for a method. The packet
--   library's run-time interface is the record `Runtime`, a call of it is a `Command`.
-- - Controller: model/p4-controller.cc, a function for a method, in files by kind; Controller/Requests
--   lists the methods, and Controller/Handling makes sequences of calls of them. The vector of switches
--   holds pointers, and the cores are kept apart, so that a switch may be registered twice; an access
--   beyond the vector, or through a null pointer to a core, is the end `undefined`. No null pointer is
--   registered. Of the library nothing is assumed.
-- - PipelineCore: model/p4-core-pipeline.cc, `ReceivePacket` of the switch without queues, over the same
--   record `Library`; of its fields `FieldLaws` is assumed.
--
-- Not modelled here: the bridge channel, the architectures PSA and PNA, and the reading of topologies.
-- Output to logs and the installation of simulator objects are left out: they have no part in what is
-- stated.
pub mod Base
pub mod Registers
pub mod InputBuffer
pub mod EgressQueue
pub mod SwitchCore
pub mod CustomHeader
pub mod V1model
pub mod FormatUtils
pub mod Link
pub mod SwitchDevice
pub mod FattreeTopo
pub mod Runtime
pub mod Controller
pub mod PipelineCore
