-- ===== src/Witnesses.antt =====
-- The theorems at concrete inputs, and tests of the model.
mod Samples
mod Storing
mod Serving
mod Devices
mod Archives
mod Commands
mod Requests
mod Starting
