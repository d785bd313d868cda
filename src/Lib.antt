-- ===== src/Lib.antt =====
-- The on-board computer of the Project TELLER sounding rocket experiment: models and theorems.
--
-- The program talks to the ground over a framed telemetry link, obeys commands, watches three
-- signals of the rocket's service module, runs tables of timed events and keeps the power
-- limiters of its subsystems on. The parts and the files that model them:
--
--   Crc        src/core/utils/crc.c: checksums that are driven by tables. `crc_ccitt` guards frames.
--   Telem      src/core/telem/generic.cpp and parser.cpp: `serialize`, and `Parser::feed` as
--              `Parser.feed`, whose two pointers into the message are indices. `Serialize.Wire`
--              describes the wire format as a list of bytes; `Parser.Bounds` has the invariant.
--   Frames     src/core/telem/*.cpp: `encode_…`, `decode_…` and `validate_encoded_…` for each payload
--              (`encodeAckFrame` is `encode_ack_frame`, and so on). A decoder that could run over the
--              end of the array it fills returns an `Option`.
--   Cmd        src/modules/cmd.cpp: `process_packet` chooses a handler of `Handlers` or
--              `StorageHandlers`; `process_message` adds the response, and `feed`,
--              `feed_nonblocking`, `process_next` and `destroy` act on the queue. What a handler asks
--              of the other modules is a list of `Effect`, and what they answer is the record
--              `Answers`, which the theorems leave open. `reading` makes a read behind the end of a
--              payload an outcome.
--   Lcl        src/modules/lcl.cpp: `reset_multiple` as a list of actions on pins, and
--              `update_auto_reset_logic` with the state machine of each limiter in `update_one`.
--   Rxsm       src/core/utils/majority_voter.h and src/modules/rxsm.cpp: `Voter.feed` on the history
--              byte, the state manager, and `Manager.update`, which restarts and stops schedulers.
--   Scheduler  src/modules/scheduler.cpp: the clock (`start`, `stop`, `restart`, `reset`), the tables,
--              and `execute_pending_events`.
--   Varuint    src/core/utils/varuint.c: `varuint_encode_overlong`, `varuint_decode_overlong` on
--              a buffer, and `varuint_decoder_feed` for one byte at a time. The loop over the markers ends at the sentinel of the table.
--   Histogram  src/core/utils/histogram.c: `histogram_pack` and `histogram_unpack`, on top of Varuint.
--   BlockCache src/core/utils/block_cache.cpp: the cache, and in `Coherence` its use before a device.
--   Storage    src/modules/storage.cpp and src/core/utils/smart_dir_handle.cpp: `Filesystem` is the class
--              `FilesystemState`, `Areas` the class `Filesystems`, `Requests` the functions of the module
--              on them; `Raw`, `Download`, `Listing` with `ListingLoop` are the three operations, which
--              `Manager` runs one at a time. `Fragments` describes what a download is to send.
--   Transmit   src/modules/telem.cpp: `send_to`, the queue with the buffers of its messages,
--              `process_next`, and the table of periodic tasks.
--   Supervisor src/modules/supervisor.cpp: the slots of tasks, `check_tasks`, and in `Queues` those of
--              the queues.
--   Common     lists with native indices, Boolean tests, machine words and laws of bit operations.
--
-- Commands reach Cmd as the payloads of Frames, carried by the frames of Telem, whose checksum is in
-- Crc; Cmd resets limiters (Lcl) and drives the mission clock (Scheduler); Rxsm restarts the
-- schedulers, and its signal LO and its test for a late boot decide in Lcl and Scheduler. Storage
-- sends what it reads through Transmit, which frames it with Telem; whether the queue takes a frame is
-- a list of answers of the operation that sends it.
--
-- Words: an unsigned integer of w bits is a natural number below 2 ^ w, and wraps around where the
-- code does (`u8`, `sub32`); an `int` or a real is its bit pattern, but for the position that `seek`
-- takes, which is a signed number (`int32`). A byte string is a list, a C
-- string its bytes before the zero. A reading of the boot clock is an argument of the operation that
-- makes it. Most loops run over lists and have no fuel: the loop over a table of events ends at
-- its end event, which every table has, and the loop of a handler that waits for the watchdog is the
-- outcome `hung`. The search of a directory for an entry has fuel and needs none; unpacking a
-- histogram has fuel for each of its bytes, and a pass takes one at least.
--
-- littlefs, the drivers of the storage and the heap are parameters: records of functions (`Littlefs`,
-- `Readers`, `Files`, `Dirs`) and `Heap`, with laws (`IsContent`, `IsDirectory`) where a theorem relies
-- on them.
--
-- Not modelled: the operating system, the drivers of the chips and the copies of other libraries,
-- which are not the program's logic; log records; functions that block until an area is mounted;
-- payloads with scaled reals (heartbeat, voltages, magnetometer); the data recorder, the error codes,
-- the unpacked size of a histogram and the NMEA parser.
pub mod BlockCache
pub mod Cmd
pub mod Common
pub mod Crc
pub mod Frames
pub mod Histogram
pub mod Lcl
pub mod Rxsm
pub mod Scheduler
pub mod Storage
pub mod Supervisor
pub mod Telem
pub mod Transmit
pub mod Varuint
