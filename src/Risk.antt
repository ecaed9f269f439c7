-- ===== src/Risk.antt =====
-- fraudlatch/risk: the rules engine, its configuration and models, and the velocity windows.
pub mod Models
pub mod Config
pub mod Engine
pub mod Velocity
pub mod AmountDeviation
