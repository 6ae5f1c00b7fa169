-- ===== src/Tests.antt =====
-- Small runs of the definitions, and each theorem at one of them.
mod Data
mod Proofs
mod Gates
mod Stages
mod Records
mod Chain
mod Tools
mod Repair
mod Cycles
mod Structural
