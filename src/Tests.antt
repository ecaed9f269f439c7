-- ===== src/Tests.antt =====
-- Runs of the models on concrete data: instances of the external interfaces, and the theorems at inputs that
-- meet their conditions.
mod Memory
mod RiskTests
mod VelocityTests
mod EventTests
mod RetryTests
mod WorkerTests
mod DispatcherTests
mod ReplayTests
mod RequestTests
mod StreamTests
mod QueryTests
mod LoopTests
mod CalculateTests
mod DatasetTests
mod BaselineTests
mod MainTests
mod MigrationTests
mod EnvTests
mod RetryRecordTests
mod RowTests
mod ServiceTests
