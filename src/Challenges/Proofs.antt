-- ===== src/Challenges/Proofs.antt =====
-- Proofs about the resolution and the verdict of challenges.
pub mod Boards
pub mod Resolution
pub mod Request
pub mod Answer
pub mod Total
pub mod Rules
pub mod Verdicts
