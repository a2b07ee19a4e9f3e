-- ===== src/Lib.antt =====
-- The OpenTherm thermostat firmware.
--
-- The firmware speaks OpenTherm to a boiler as the master. Once a second the executor
-- (components/ot_control) decides the two bits and the held setpoint that the boiler is told; the
-- scheduler (components/ot_bus_sched) decides when the master speaks and about what; the tracker
-- (components/ot_bus_track) keeps the writes of other tasks while a conversation is on the wire and
-- counts the answered writes of ID 1, which the executor takes as its confirmation.
--
-- Files and what they model:
--   Prelude, Prelude/*: numbers, lists, signed integers and 32-bit words. A word is a natural
--     number below 2^32 with the wrap written out (u32, sub32), saturation is add_sat. Temperatures
--     in tenths of a degree are integers; the conversions of C to int16_t stay in range, which the
--     bounds of the configuration give. Bits has the laws of the operations on binary digits.
--   Control/*: components/ot_control. Types are the structs of ot_control.h; Bound, Clock, Boost,
--     Edges, Failsafe, Dhw, Step, Command and Names are its functions, in the parts that the source's
--     bodies fall into; `step` is ot_control_step() with `prepare` for what stands before the
--     ladder and `act` for what follows it, `apply` is ot_control_apply(), `check`
--     ot_control_check(). The other files are proofs: Frames, Trace (sequences of calls) and one
--     file for each behaviour. Scenes and Examples are concrete runs.
--   BusSched/*: components/ot_bus_sched. `step` is ot_bus_sched_step() with `slot` for the choice
--     of the conversation, `done` is ot_bus_sched_done(); the array of the polling ring is the list
--     of its first poll_count entries.
--   BusTrack/*: components/ot_bus_track, over the scheduler that the caller holds beside it.
--   Frame/*: components/ot_frame/ot_frame.c, the word with its parity; shifts are products and
--     quotients by powers of two, and, or and exclusive or are the library's on binary digits.
--   Line/*: components/ot_encode and components/ot_decode. `emit` is the loop of
--     ot_encode_frame(), `push` is ot_decode_push(), `sample` its calls on a sampled line.
--   Room/*: components/ot_sensor and components/ot_room. The C type float and math.h are the
--     parameter Floats, of which nothing is assumed; a room is the list of its first `count`
--     slots.
--   Policy/*: components/ot_policy. A C string is the list of its bytes, none for NULL.
--   Ticket/*: components/ot_ticket; the array of slots is a list.
--   Provision/*: components/ot_provision; Trace has the calls of its task as a list, in any order.
--   Registry/*: components/ot_registry; the lookups take the list as an argument, and Rows* and
--     Table are the list of this firmware, OT_ENTITIES.
--   State/*: components/ot_state; an array is a function of its index. The lock that every call
--     takes is left out: a call is one step. Reading tells the codecs and the meaning of the
--     types of answers independently of the code.
--   Frame/Codec, Frame/Numbers: components/ot_frame/ot_codec.c; the C type float is the record
--     Numbers, with what the code relies on of it as the hypothesis IsExact, and Frame/Fixed is an
--     instance.
--   Captive/*: components/ot_captive/ot_captive_dns.c; a buffer with its length is a list of bytes
--     and a pointer into it the rest of the list. The loop over the labels has the length of the
--     datagram as its fuel: each round reads a byte of it at least.
--   Command/*: components/ot_command, over Registry, State and the executor's check in Control.
--     Limits and Unit tell the bounds, the identifiers and the units independently of the code.
--   OneWire/*: components/ot_onewire_decode; a scratchpad is the list of its bytes.
--
-- A stateful function takes the struct and returns it; an output parameter is a part of the
-- result. A loop goes through a list once, or counts down, but for two on fuel: the traversal of a
-- Data-ID's entities has the length of the list, of which each round goes one place on at least, and
-- the loop over the labels of a DNS name that of the datagram.
--
-- Not modelled: the tasks, the radio, the flash, the HTTP and MQTT glue and the rendering of text,
-- which call ESP-IDF; and the pure components ot_control_io, ot_observe, ot_ha, ot_led, ot_config,
-- ot_auth, the rest of ot_captive, ot_mqtt, ot_json, ot_log, ot_secrets and ot_wire. Of the modelled
-- ones, ot_command_strerror() and ot_onewire_temp_c() are left out. The callers' locks make the
-- calls of a struct a sequence, and the theorems speak of sequences of operations.
pub mod Prelude
pub mod Control
pub mod BusSched
pub mod BusTrack
pub mod Frame
pub mod Line
pub mod Room
pub mod Policy
pub mod Ticket
pub mod Provision
pub mod Registry
pub mod State
pub mod Captive
pub mod Command
pub mod OneWire
