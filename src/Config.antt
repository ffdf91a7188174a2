-- ===== src/Config.antt =====
-- internal/config, the operator's input: parsed values, defaults, and validation.
-- Each check of the source adds its messages to one list; here a check gives the problems it adds, and
-- `Validate` joins them in the source's order.
pub mod Netip
pub mod Types
pub mod Checks
pub mod Client
pub mod Server
pub mod Load
pub mod Tests
