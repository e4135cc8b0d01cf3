-- ===== src/Lib.antt =====
-- PacketWyrm's control library, libpacketwyrm (sw/libpacketwyrm): a model of the path from a
-- configuration to a programmed traffic generator card, and of the host packet plane beside it.
--
-- The parts, and how they work together:
--   * A text becomes a tree (Yaml; yaml.c) from the events of libyaml, which are the input. Scalar has
--     the parsers of scalars (scalar.c) and Config/Parse those of the schema (config.c,
--     `pw_config_parse_string_ex` down to `parse_flow`), each a chain that stops at the first error.
--   * A configuration (Config, Config/FlowModel; config.h) names cards, ports, logical interfaces,
--     flows and forward rules. Config/Resolve has its lookups (config.c, `pw_config_resolve_port`
--     and its kin), Config/Validate the checks of `pw_config_validate` (validate.c), which stop at
--     the first fault; Config/Fault is what the diagnostic says of it, without its text.
--     Config/Valid states what a valid configuration is.
--   * The compiler (Compiler; flow_compiler.c, `pw_flow_compile`) validates the configuration and
--     fills one program for each card: Compiler/Tables has the structures (flow_compiler.h and the
--     flow row of csr.h), Compiler/Append the `append_*` helpers, Compiler/OneFlow
--     `compile_one_flow` with its row in Compiler/Row and its hash key in Compiler/Hash,
--     Compiler/Rules `compile_punt_rules` and `compile_forward_rules`, and Compiler/Seed the pass
--     that masks the hash keys and searches for a seed.
--   * The programming (Programming; programming.c, `pw_program_card_tables_diag`) writes a card's
--     program through the operations of a backend (Backend; backend.h), which are a parameter.
--     Programming/Board is a backend that stores what it is given.
--   * The statistics (Stats; stats.c, `pw_stats_aggregate`) read the metadata that the compiler left.
--   * The host plane (HostPlane; host_plane.c) moves frames between a card and TAP descriptors; both
--     are a parameter, with any behaviour.
--   * The time synchronisation (GpioSync; gpio_sync.c) reads the timestamps of two cards and writes
--     the latency corrections; the register accesses are a parameter.
--   * The control socket (Ipc; ipc.c) moves frames over any schedule of `send` and `read` calls.
--   * The preview (Preview; frame_preview.c, `pw_flow_build_preview`) builds the frame of a flow at a
--     sequence number: Preview/Modifiers has the `pv_mod*` functions, Preview/Build the layers.
--   * The flash of the board (SpiFlash; spi_flash.c) is written through two register operations, which
--     are a parameter; a call is a function from the device to a result and the device.
--   * Pipeline joins the compiler with the programming and with the statistics.
--   * Base holds what all of them use: results, words with their wrap, lists over the native
--     numbers, bits. Examples applies the theorems to a small configuration, card, plane and pair of clocks.
--
-- How the code is carried over: a structure is a record with its fields, an array with a count is
-- a list, a function that changes a structure returns the new one, `pw_status` is a result with
-- PW_OK as `ok`. A card is changed where `card_slot` finds it, so that a flow which stays on one card
-- changes one card, as through the two pointers of the source. When the compiler fails, what it has
-- built is dropped. Casts and shifts of fixed width are written with their remainder. The 128-bit
-- products of the rate do not wrap, and are plain products. Counters wrap at 2^64.
--
-- Bounds: the seed search makes 4096 attempts, as the source does; the loop that finds the index
-- width has 32 rounds, more than an `unsigned` can be halved. All other loops run over lists, or
-- for a number of rounds that the source fixes.
--
-- The recursion over YAML events has a unit of fuel for each event, and a tree is no deeper than it
-- has events. `strtoull` and `%u` are those of a C library with a 64-bit `long`; the transfers of the
-- control socket recur over the calls of the system. The loops over a flash range have a round for
-- each byte, the loop over its sectors 257, one more than the flash has.
--
-- Not modelled: pointers that are NULL, and allocations that fail; the texts of diagnostics
-- and their line numbers; libyaml and `inet_pton`, which are parameters; the daemon, the clients and
-- the kernel module; the backends, real and fake; TAP devices, VFIO, PCI and SFP
-- modules; the set-up of the control socket. `fcntl` in `pw_host_plane_bind` is left out.
pub mod Base
pub mod Config
pub mod Compiler
pub mod Backend
pub mod Programming
pub mod Pipeline
pub mod Stats
pub mod HostPlane
pub mod GpioSync
pub mod Yaml
pub mod Examples
pub mod Scalar
pub mod Ipc
pub mod Preview
pub mod SpiFlash
