-- ===== src/Core.antt =====
-- ahp/core: addresses, patterns, codes and their tier requirements.
pub mod Codes
pub mod Compatibility
pub mod Pattern
pub mod Address
