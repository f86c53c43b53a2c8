-- ===== src/Tests.antt =====
-- Runs of the engine on the platform in memory, and the theorems at concrete data.
pub mod Data
mod Invariants
mod Writes
mod Times
mod Endpoints
mod Issuing
mod Reads
mod Bursts
mod Mocked
mod Revoking
mod Granting
mod Routes
mod Updates
mod Renewing
mod Sending
mod Waiting
