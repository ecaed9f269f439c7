-- ===== src/Scripts.antt =====
-- scripts: the validation of the raw data set, its conversion to canonical rows, and the replay of these rows.
pub mod Dataset
pub mod Files
pub mod Validate
pub mod Convert
pub mod Replay
