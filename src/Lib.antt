-- ===== src/Lib.antt =====
-- Capture path of mmwcli
--
-- mmwcli records raw ADC data of a TI mmWave radar through a DCA1000 capture card. The FPGA sends
-- UDP datagrams; the receiver places their payloads into a capture output by byte offset; the mirror
-- stands in for that output, writes each payload to the real one first, assembles the frames beside
-- it, and hands complete frames to a sink in order; the encoder is such a sink and writes the frames
-- as records of a capture stream, which a commit record closes once the artifact is published. Before
-- a debug capture the firmware images of the radar are parsed and split into memory writes. A capture of
-- several sensors drives each other sensor through a producer, a process that answers commands and sends
-- frames, keeps an index of the items of each payload, and sends all sources as one aggregate stream.
--
-- The files, and the code that each is about:
--   Base             shared names: Boolean tests, results, lists, little-endian bytes, int64
--   Coverage         the sorted ranges of written bytes. addRange, preflightRangeAddition and
--                    finalizeStats of internal/dca/receiver.go are add_range,
--                    preflight_range_addition and missing_bytes; addCoverageRange and the loop of
--                    frameSpool.preflight of internal/capturestream/coverage.go are the same code
--   Mirror           internal/capturestream/mirror.go and coverage.go. Spool is frameSpool; State has
--                    NewMirror and the locked helpers; Plan is planWriteLocked; Write is WriteAt with
--                    enqueueCompleteLocked; Worker is runSink; Seal is Seal and Abort
--   Dca.Protocol     internal/dca/protocol.go
--   Dca.Receiver     internal/dca/receiver.go: the tests of NewReceiver and the loop of receive
--   Stream           internal/capturestream/protocol.go and encoder.go, with buildTerminalPayload and
--                    validateAbortReason of session.go
--   Rprc             internal/debugcapture/rprc.go: parseRPRC, and in Memory planMemoryWrites with
--                    mapSectionAddress
--   Multisensor      internal/multisensor: Clock has SourceLimits.Validate and UnwrapTicks of model.go, Index
--                    has index.go
--   Producer         internal/sensorproducer: Protocol and Frames are protocol.go, State is state.go, and
--                    State.Run the runs of its methods
--   SensorStream     internal/multisensorstream: Model and Digest have the tests of model.go, Wire the
--                    records and what both ends keep, Encoder and Decoder the two state machines,
--                    Records the bytes of protocol.go
--
-- Each of these has child modules for its proofs, and a module Examples with its tests and with the
-- theorems at concrete inputs.
--
-- How state is modelled. A mirror is one record for the fields behind the lock, the channel, the
-- contexts and the place of the worker in its loop. Each critical section is a function on it, and
-- Mirror.Steps lets any of them follow any other, so a list of actions is an interleaving; what the
-- output, the sink and the contexts answer is part of the action. The receiver's loop is a function
-- of one round, and a round carries what the clock, the context, the socket and the output answer.
-- The encoder is a record with its writer's state in it.
--
-- Numbers. Byte counts and offsets that the code has checked are natural numbers; a number that a
-- caller gives and that may be negative is an integer. Counters of uint32 and uint64 keep their
-- wrap-around. An int has 64 bits. A byte is a number below 256 where a theorem needs it to be one.
--
-- Fuel. The loop of enqueueCompleteLocked has one round for each slot and one more, since each round
-- but the last deletes a slot. writeAll has a round for each byte, since each round hands over one at
-- least. The writes of a section have a round for each byte and need one for each 4096.
--
-- Parameters. io.Writer is a record of a write function and the bytes it took, with the contract of
-- the package io as a named hypothesis; SHA-256 and the JSON text of the terminal record are
-- functions of which only the digest's size is ever assumed. The producer's JSON and bytes.TrimSpace are
-- fields of one record, GoLibrary, of which nothing is assumed. The aggregate stream's JSON is the record
-- Json, with the hypothesis IsJson that a record that passes the tests of model.go, whose texts are thus
-- valid UTF-8, decodes as it was encoded, and utf8.ValidString is a function. The encoder is given its
-- writeRecord as a function, whose bytes SensorStream.Records has.
--
-- Not modelled. Texts of errors; sockets, serial ports, USB and files; the hand-over of results
-- between the receiver's goroutines; JSON. Of internal/multisensor the validation of a session and
-- its directory, of internal/multisensorstream the sink and the adapter, of internal/sensorproducer
-- the client, the process and the JSON lines of commands, of internal/debugcapture all but rprc.go;
-- and the packages internal/radar, internal/session, internal/multisensorcapture,
-- internal/fixedframeproducer, internal/capturefile, internal/capturemanifest, internal/d2xx,
-- internal/serialport, internal/firmware, internal/app and cmd/mmwcli.
pub mod Base
pub mod Coverage
pub mod Mirror
pub mod Dca
pub mod Stream
pub mod Rprc
pub mod Multisensor
pub mod Producer
pub mod SensorStream
