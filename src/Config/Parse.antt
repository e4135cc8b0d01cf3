-- ===== src/Config/Parse.antt =====
-- The parsers of the configuration (sw/libpacketwyrm/src/config.c), over the YAML tree.
pub mod Fields
pub mod Cards
pub mod Addresses
pub mod Traffic
pub mod FlowBlocks
pub mod Entries
pub mod Ranges
pub mod InRange
pub mod CardRanges
pub mod AddressRanges
pub mod TrafficRanges
pub mod FlowRanges
pub mod EntryRanges
pub mod RootRanges
pub mod Root
