-- ===== src/Lib.antt =====
-- A model of the protocol gateway: a Go service that polls industrial devices over Modbus, S7 and
-- OPC UA, converts what it reads, and publishes it over MQTT, watched by a health checker.
--
-- Prelude holds the helpers: numbers and tests (Tests), lists by native numbers (Lists), Go's maps as
-- association lists (Dict), two's complement (Int), texts as bytes (Text), sorting (Sorting) and lists of
-- lists (Flat).
--
-- Domain is internal/domain: tags with their register counts (Tag, tag.go), their validation (Validate,
-- ValidateForProtocol of tag.go; a validated tag comes back as a new record), data points
-- (DataPoint, datapoint.go) and the error values (Errors, errors.go). Go's `interface{}` values
-- and the type switches on them are in Value. A float is its bit pattern; the arithmetic of
-- the Go runtime is a parameter (Float).
--
-- Modbus is internal/adapter/modbus: reorderBytes and the big endian words (Bytes), parseValue,
-- valueToBytes and the scaling of conversion.go (Convert), sorting and merging of tags into ranges
-- (Batch: sortTagsByAddress, buildContiguousRanges, buildCoilRanges), the classification of
-- errors (Errors: contains, isRetryableError, translateModbusError), the connection and
-- the diagnostics (Client), the two range readers (Range: readRegisterRange, readCoilRange),
-- ReadTags with what it calls (Group), ReadTag with its retry loop (Single),
-- and WriteTag (Write). A client is a record passed on explicitly. The Modbus library
-- is a parameter, a function from a request to bytes or an error. The buffer of a range is part of
-- the state, because parsing reorders it in place. The end of a context is a number of ranges
-- after which it is found ended; the order in which Go walks a map is a function on lists.
--
-- Modbus.Pool is internal/adapter/modbus/pool.go: the entries, GetClient, removal, closing, the checks of
-- the goroutines and the statistics (Pool), and the seven requests (Requests), which run the client's
-- ReadTags, ReadTag, WriteTag or a write at an address (Write.Direct) under the breaker of the device.
-- The breaker (Breaker) is the package gobreaker: a parameter, of which its documentation says that it
-- rejects while it is open. Each method runs to its end before the next.
--
-- Health is internal/health/checker.go: updateCheckStatus and the states (Health), runChecks (Rounds),
-- registration, Start and Stop (Registry), the answers (Handlers). The goroutines of a round take the
-- locks one after the other, in an order that is an argument; times are numbers.
--
-- ReadTag and WriteTag meet their surroundings, the device, the reconnects and the context, as functions
-- of the attempt; their loop, which is one here, is a recursion on the retries that are left. The
-- text that fmt.Errorf makes of an error's details is a parameter.
--
-- Addresses are uint16 and their wrap-around is written out. The in-place reversal of reorderBytes
-- runs on fuel, the length of the slice, which is more than the swaps that it makes; the
-- other loops are recursions on a list or on the retries left. Counters of 64 bits are unbounded.
--
-- Devices (Device, internal/domain/device.go) and the manager that routes their calls to the pool of
-- their protocol (Manager, internal/domain/protocol.go) are in Domain. A pool answers through its
-- record; the adapters' own pools are not connected to it.
--
-- Service.Command is internal/service/command_handler.go: the state and the callbacks of the broker,
-- processWriteCommand in two parts, up to the semaphore and after it (Processing), Start and Stop
-- with the steps of a handler's life (Life). The channels are lists, and a step is what a goroutine
-- does between two of its operations on them. The split of a topic and the decoding of a payload are
-- parameters; the proofs are in Balance, Account, Index and Outcome.
--
-- Service.Topic and Service.Polling are internal/service/polling.go: the parts of a topic as code points,
-- and pollDevice, up to the worker pool and from there to its end. What the protocol manager, the
-- publisher and the clock answer to a poll is its argument, and so are Go's conversions of strings.
-- Service.Starting is the start of a device there, by a loop or a subscription; its two functions, which
-- call each other, are one on fuel, a unit of it for each answer of the subscription's handler.
--
-- Mqtt is internal/adapter/mqtt/publisher.go: publishing, the buffer and its draining (Publisher), the
-- connection with the steps of a publisher's life (Publisher.Life), the tracked topics (Topics). How
-- the wait for the broker ends is an argument of each publication, and the encoding of a point as
-- JSON is a parameter. drainBuffer has a delivery for each message it has the time for, and a run of processBuffer
-- one for each iteration; what happens between a receive and the rest of an iteration is in Waiting. A nanosecond
-- clock is a number.
--
-- Opcua.LoadShaping is internal/adapter/opcua/loadshaping.go: the checks before an operation, the queues,
-- the counters and the brownout; Workers has the workers and Steps the interleavings. The operations are
-- names of their sessions and priorities; the end of a context and the state of a breaker are what a
-- call reads. The steps are those of operations with one of the three priorities. The threshold, a product of floats, is a number of the configuration.
--
-- S7.Batch is internal/adapter/s7/batch.go. Go walks the map of the groups in any order, which is an
-- argument; sort.Slice is Prelude.Sorting, a stable sort. Offsets are not negative, and an int is its
-- two's complement pattern, whose sums, differences and comparisons are in Prelude.Int.
--
-- S7.Address, S7.Convert and S7.Client are internal/adapter/s7: parseTagAddress and
-- parseSymbolicAddress of client.go, whose regular expressions are functions from the left
-- (Address, with the printed addresses in Printing), conversion.go (Convert), the state, the
-- errors and the requests (Client), ReadTag and WriteTag down to the library (Client.Single), and
-- ReadTags (Client.Reading, with readTagsOptimized and the fallback in Reading.Whole; the number
-- of items is fuel enough for the cut into chunks), and WriteTags (Client.Writing). The library
-- gos7 with the PLC behind it is a parameter, a state and a function from a request to an answer;
-- of it the documented effect on a memory is a hypothesis (Client.Single.Memory).
--
-- Not modelled: logging, metrics, HTTP bodies, the wall clock, mutexes (every modelled operation
-- holds its lock), the pool of the S7 adapter, most of the OPC UA adapter, the pollers of the
-- polling service and their registration, the configuration and the HTTP API.
--
-- Examples runs the code on concrete inputs.
pub mod Prelude
pub mod Domain
pub mod Modbus
pub mod Health
pub mod Service
pub mod Mqtt
pub mod Opcua
pub mod S7
pub mod Examples
