-- ===== src/Tests.antt =====
-- Runs of the model on small inputs, and the theorems at inputs that meet their conditions.
mod Gallring
mod Keys
mod Requests
mod Applications
mod Protected
mod Signing
mod Platform
mod People
mod Gateway
mod Packages
mod Hooks
mod Workforce
mod Directory
mod Sealing
mod Signatures
mod Broker
mod Workers
mod Intake
