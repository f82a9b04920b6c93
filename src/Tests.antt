-- ===== src/Tests.antt =====
-- Concrete runs of the models, and the theorems at concrete inputs.
mod Storage
mod Objects
mod Files
mod Mounting
mod Sample
mod Names
mod Processes
mod Addresses
