-- ===== src/Yalin.antt =====
-- The netlink monitor yalin: one module for each header of yalin/yalin.
pub mod Flags
pub mod Filter
pub mod Hexdump
pub mod Request
pub mod Socket
pub mod Rtattr
pub mod Linkinfo
pub mod RtaText
pub mod Dump
pub mod Monitor
pub mod Analyze
pub mod Types
mod TypesTests
