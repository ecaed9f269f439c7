-- ===== src/Contracts.antt =====
-- fraudlatch/contracts: the fields of a transaction and the versioned event envelope.
pub mod Transaction
pub mod Events
