-- ===== src/Gates.antt =====
-- leibniz/gates: the gates that decide whether a candidate goes on.
pub mod Sound
pub mod Verification
pub mod Novelty
pub mod Faithfulness
