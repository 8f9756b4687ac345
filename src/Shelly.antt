-- ===== src/Shelly.antt =====
-- internal/shelly: the client of the Shelly devices, a module for each of its concerns.
pub mod Gate
pub mod Digest
pub mod HttpError
pub mod Recovery
pub mod Requests
pub mod Setup
pub mod Auth
