-- ===== src/Tests.antt =====
-- The theorems at concrete inputs.
mod Board
mod Disk
mod Patch
mod Patched
mod Balanced
mod Console
mod Manager
mod Codec
mod Loader
mod Handles
mod Flash
mod Mux
mod Packages
mod Files
