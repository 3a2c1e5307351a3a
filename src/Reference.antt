-- ===== src/Reference.antt =====
-- src/reference_model.cpp: the part of the serial reference model that interprets committed commands.
pub mod Interpret
pub mod Actions
pub mod Elections
pub mod Logs
pub mod Commits
pub mod Run
pub mod Sound
pub mod Moves
pub mod Counting
pub mod Elected
pub mod Valid
pub mod History
pub mod Observed
pub mod Safety
pub mod Agrees
pub mod Proposals
mod Tests
