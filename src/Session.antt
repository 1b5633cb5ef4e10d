-- ===== src/Session.antt =====
-- default/Session.cpp and its header: one biometric session.
pub mod State
pub mod Calls
pub mod Context
pub mod Frames
pub mod Downscale
pub mod DownscaleLaws
pub mod Steps
pub mod Queue
pub mod Workers
pub mod Cancelling
pub mod Starting
pub mod Reports
pub mod ContextLaws
