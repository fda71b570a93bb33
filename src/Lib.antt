-- ===== src/Lib.antt =====
-- The verification library of qboot, a boot loader for RT-Thread that installs firmware packages.
--
-- The parts, and how they interact. A storage driver offers a table of operations, through which all
-- targets (app, download, factory) are reached. The boot thread asks the update manager to wait until
-- a download is over or nothing is to be done, then checks the package in a target, streams it through
-- decryption and decompression into its destination, verifies the destination, and jumps to the
-- application.
--
-- The files:
--   * Base: numbers, lists, words of 32 bits, Boolean tests, bit masks, and loops on fuel.
--   * Storage: inc/qboot_ops.h and src/qboot_ops.c. Header has the package header (its
--     layout is in Header/Layout) and the release sign, Targets opens, closes and erases targets,
--     Register fills the operation tables; Frame, Keeps and Counts say what drivers and the helpers
--     leave alone. Custom is src/qboot_custom_ops.c, with its ranges in Custom/Range; Mux
--     is src/qboot_mux_ops.c, Fal src/qboot_fal_ops.c with its release sign in Fal/Sign, and Fs
--     src/qboot_fs_ops.c with its files in Fs/Roundtrip.
--   * Algo: src/qboot_algo.c and inc/qboot_algo.h, the algorithm tables, with the lookups in
--     Algo/Lookup; Algo/NoneCodec is algorithm/qboot_none.c, Blocks has
--     algorithm/qboot_fastlz.c and algorithm/qboot_quicklz.c, with the framing in Blocks/Framing, and
--     Gzip is algorithm/qboot_gzip.c, with what it keeps in Gzip/Conserves. Aes
--     is algorithm/qboot_aes.c.
--   * Stream: src/qboot_stream.c. Progress is about the inner loop, Exact and Keeps are
--     about both, Joined is about the inner loop and Identity about both with the NONE
--     algorithm, and Capacity about the staging buffer.
--   * Update: src/qboot_update.c. Events has the handlers, Download the download helper, Poll the
--     waiting loop, Reason the shell command; Release, Session, Handles, Interrupted, Reason/Parse and
--     Reason/Command have the theorems.
--   * Boot: src/qboot.c. The checks and the release are in Boot itself, qbt_app_resume_from and
--     qbt_release_from_part in Release, the boot thread in Thread, the key and the shell that it asks
--     in Console (what they answer in Console/Answers), the shell commands in Shell,
--     and the release of a build with HPatchLite in Patched;
--     Checksum, Verified, Copied, Keeps, Balance and Guarded have the theorems.
--   * Patch: algorithm/qboot_hpatchlite.c. Ram and Flash are the two swap backends, Commit the listener
--     and the commit, Release qbt_hpatchlite_release_from_part. Laws is the contract of a swap backend,
--     which Backends/RamLaws and Backends/FlashLaws fill (FlashInit, FlashSteps and FlashCopy have the
--     steps, on the partitions of TwoParts); Erase, Collect, Write, Refine and Deliver prove the release
--     on any backend with that contract, Handed says what a patcher hands over, and OnFiles is the
--     release on files. Balance and Backends/Counts count its blocks of memory and its handles.
--   * Tests: a small board, a disk and a file, and the theorems at concrete inputs.
--
-- How state and operations correspond to the code. `W` is the state of everything that the code
-- reaches through callbacks: storage, algorithms, the kernel, the board. Each C function is a function
-- of the same name without its prefix that takes that state last and returns the result with the new
-- state. The statics of the update manager are the record `Sys`; the static header of the boot loader
-- is passed on as a value. A buffer is the list of its bytes. Numbers are natural numbers, and
-- 32-bit arithmetic wraps by `add32`, `sub32` and `mul32`.
--
-- Bounds and fuel. A loop takes fuel from the amount that is left: the bytes of output and input for
-- the decompression loop, the bytes of the image for the stream, the size of the area for a checksum
-- or a copy, the takes of the semaphore that the time allows for the wait for a key. Each round
-- lowers that amount, so the fuel suffices; the theorems about the loops include this. The waiting
-- loop of the manager runs over a schedule of events, one list for each sleep; a schedule that ends
-- before the manager is ready stands for a caller that still waits.
--
-- The patcher is a tree of the calls that it makes, so that a run of it ends; it has no other effect on
-- the state. The loop that collects what it writes has fuel for two rounds for each byte, the copy of
-- the swap a round for each byte, and one more.
--
-- What is not modelled. The packages (FAL, zlib, FastLZ, QuickLZ, tinycrypt, HPatchLite), the calls of
-- the operating system, checksums and the kernel are parameters with the laws that a theorem needs. The
-- `int` values of the differential update are natural numbers, and its progress output is left out.
-- The callers of qbt_fw_release are those of a build without HPatchLite. The platform files are not
-- covered. Console output and the status LED are left out. The buffers of the stream are lists, without
-- the capacities of the static arrays (QBOOT_CMPRS_BUF_SIZE, QBOOT_BUF_SIZE); Stream/Capacity bounds the
-- staging buffer with the NONE algorithm.
--
-- What is assumed of handles. The theorems on open handles give each handle a weight and count the
-- weights of those that are open; they hold for any weights, so for each handle by itself. A driver with
-- one slot for each target (Mux, Fs) keeps that count only while no target is opened twice.
pub mod Base
pub mod Storage
pub mod Update
pub mod Algo
pub mod Stream
pub mod Boot
pub mod Patch
mod Tests
