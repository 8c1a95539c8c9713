-- ===== src/Yalin/Types.antt =====
-- The names of netlink constants (yalin/yalin/types.h), one module for each function.
pub mod IfiType
pub mod NlmsgType
pub mod RtnType
pub mod IfaFamily
pub mod RtaType
