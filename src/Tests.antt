-- ===== src/Tests.antt =====
-- Concrete inputs on which the theorems of the library apply, and small runs of the model.
pub mod Clients
pub mod ClientTests
pub mod FenceTests
pub mod ClientPrograms
pub mod Data
pub mod Servers
pub mod Options
pub mod Launch
pub mod Pmi
pub mod Filters
pub mod Simptests
pub mod Harness
