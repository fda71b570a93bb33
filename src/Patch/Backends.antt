-- ===== src/Patch/Backends.antt =====
-- The two swap backends of algorithm/qboot_hpatchlite.c keep the contract of a swap backend.
pub mod RamLaws
pub mod TwoParts
pub mod FlashCopy
pub mod FlashInit
pub mod FlashSteps
pub mod FlashLaws
pub mod Counts
