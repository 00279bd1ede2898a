-- ===== src/Lib.antt =====
-- esp_rack: models and proofs for the cores of esp-rack, the firmware library: what runs on any
-- machine, without the ESP32. Paths are those of the repository.
--
-- Prelude: numbers, words with their wrap written out, integers, lists, Boolean tests. Text in the
-- sources that is only compared is a number; a name that is shown is a string.
--
-- Flash: lib/ESPRack/include/system/FlashSteps.h and src/system/FlashSteps.cpp, the steps of at
-- most one 4 KB sector in which a stream is written into flash.
--
-- Gate: lib/ESPRack/include/power/WriteGateCore.h and src/power/WriteGateCore.cpp. Holders open
-- windows in which no flash is written, writers ask to go. Gate.Types has the structures,
-- Gate.Windows addHolder, open, close, windowOpen and openWindows, Gate.Decide.Pauses isFree, the
-- queue (join, quit) and what is left of a pause, Gate.Decide.Ask enter, wouldGo, force and leave.
-- A method takes the object and returns it behind its result. Gate.Inv is what holds between two
-- calls, Gate.Laws what writers may rely on. The branches of decide are functions of their own
-- (in_window, in_pause, between). What PowerGuard::writesAllowed answers is an argument.
--
-- Pump: lib/ESPRack/include/net/UploadPumpCore.h and src/net/UploadPumpCore.cpp, method by method,
-- on top of Flash. Pump.Session puts the tasks of src/net/UploadPump.cpp around it: the producer
-- (the straight-through branch of push), the writer (next, confirm, act) and the client that goes
-- are events in any order, and beside the core stands what the sink has been told, against the
-- contract of include/net/UploadSink.h. Left out of UploadPump.cpp: requests, passes of the write
-- gate, the job.
--
-- Clock: lib/ESPRack/include/time/TimeArbiter.h and src/time/TimeArbiter.cpp: Clock.Types has the
-- structures, Clock.State validity, staleness, authority and what a sample leaves, Clock.Submit
-- submit, externalSync and restoreHold. submit is cut where it tests: submit, submit_eligible,
-- take_sample.
--
-- Hw: lib/ESPRack/include/hw/HwResource.h, HwClaims.h, BoardTables.h and src/hw/HwClaims.cpp:
-- Hw.Types has resources, boards and notes, Hw.Claims when two resources are the same hardware and
-- the operations on the claims, Hw.Check HwClaims::check, Hw.Board boardInfoFor with every chip's
-- table, Hw.Registry the part of src/hw/HwRegistry.cpp that decides what an instance holds, with
-- the registry's lock had. A loop that erases from the back is one that keeps the rest in order.
-- Texts of answers are constructors.
--
-- Framer: lib/ESPRack/include/hw/Rs485Framer.h, the frame of IRs485Port.h and
-- src/hw/Rs485Framer.cpp: bytes with their times into RS485 frames, and the Modbus CRC.
--
-- Persist: lib/ESPRack/include/persist and src/persist. Persist.Crc is Crc32.cpp, Persist.Blob the
-- codec of NvsBlob.cpp, Persist.Record the template NvsRecord over NvsIo.cpp, with the NVS library
-- as a parameter and T as its bytes, Persist.Scratch RtcScratch.h, where the memory is given at
-- every store of a commit, so that a reset can cut it there, Persist.Policy CheckpointPolicy.h.
--
-- FsQueue: modules/filesystem/include/FsWriteQueue.h over its Io as a parameter. FsQueue.Step has
-- step and removeTree, FsQueue.Slots the scans of the slots, FsQueue.Queue submit, take and
-- advance, FsQueue.Run run, close, shutdown, status and forEachPending. What the locks, the write
-- gate and the clock answer are arguments, that a restart closed the queue meanwhile too; submit
-- and run are cut where they let go of the slots' lock, and each call is whole in a sequence of
-- calls.
--
-- Ota: lib/ESPRack/include/system/OtaWriter.h, src/system/OtaWriter.cpp and FirmwareUpdate.cpp.
-- Ota.Update is what the device reports, Ota.Writer the methods of one writer, over ESP-IDF's calls
-- and the MD5 routines as parameters, Ota.Calls the writers of a device side by side: their calls
-- come one after another, which is how the exchange of the owner orders them. Texts, logs and sink
-- are left out.
--
-- Hist: lib/ESPRack/include/history/HistCore.h and src/history/HistCore.cpp. Hist.Segment is a
-- segment file (encodeHeader, decodeHeader, crc16, encodeRaw, recordTime, validRecords),
-- Hist.Retain retention, loop by loop. The bytes are read and written with the helpers of
-- Persist.Blob.
--
-- Fuel: validRecords has a turn for each byte, and each turn goes on behind a whole record;
-- removeTree is given a number of steps and says when they are used up; as many as a measure that
-- each removal lowers, and one more, are enough. The loop of submit has the source's own bound, and
-- the loop of shutdown goes through the turns that the platform answers. Every other loop goes
-- through a list, an array or a number of bits or levels once. uint8_t, uint16_t, uint32_t and
-- uint64_t sums and products wrap where the source's do; int64_t values are integers, exact where
-- they stay in range.
--
-- Not modelled: the web interface and its handlers, settings, the optional modules, the boot
-- loader, the floating-point part of the history, and everything that only calls ESP-IDF, Arduino
-- or a third-party library.
pub mod Prelude
pub mod Clock
pub mod Flash
pub mod Gate
pub mod Pump
pub mod Hw
pub mod Framer
pub mod Persist
pub mod FsQueue
pub mod Ota
pub mod Hist
