-- ===== src/Admission.antt =====
-- include/admissionspec: what a message costs, and which connection may send it.
pub mod Decision
pub mod Ramp
pub mod Policy
pub mod Bucket
pub mod Limiter
pub mod Protobuf
pub mod Json
mod Tests
