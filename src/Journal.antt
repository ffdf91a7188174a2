-- ===== src/Journal.antt =====
-- internal/journal, the mutation journal: its schema, and the recovery that undoes what it names.
pub mod Schema
pub mod Recover
pub mod Store
pub mod Linux
mod Tests
