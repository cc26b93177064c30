-- ===== src/Tests.antt =====
-- Concrete runs, and each theorem at one.
pub mod Registry
pub mod Source
pub mod Publication
pub mod Documents
pub mod Acquisition
pub mod Remote
pub mod Loading
pub mod Restore
pub mod Signing
pub mod Staging
pub mod Recovery
