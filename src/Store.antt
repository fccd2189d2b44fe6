-- ===== src/Store.antt =====
-- internal/store: the adapters of the Persistence port.
pub mod Key
pub mod Disk
pub mod File
pub mod Contract
pub mod AzureSql
pub mod Registry
