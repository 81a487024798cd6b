-- ===== src/Evidence.antt =====
-- src/civitas/evidence: contradictions, the Dissent protocol and the Jury.
pub mod Dissent
pub mod Scores
pub mod Jury
