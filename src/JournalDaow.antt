-- ===== src/JournalDaow.antt =====
-- src/journal_daow.rs, the write-behind journal store: in-memory journals per path that are flushed to a
-- database. Rows has the text form of what is stored, Database what the store asks of SQLite, Buffers
-- the appends, Flush the flush, Cold passivation, loads and purges, and Ledger the abstract view. The other
-- children have the theorems; Runs, Durable and Retained are those that they lead to.
pub mod Rows
pub mod Database
pub mod Buffers
pub mod Flush
pub mod Cold
pub mod Ledger
pub mod Entries
pub mod Write
pub mod Capture
pub mod Refine
pub mod Grow
pub mod Replace
pub mod Appends
pub mod Sleep
pub mod Loads
pub mod Runs
pub mod Retained
pub mod Durable
pub mod ColdAppend
pub mod TableDatabase
mod Tests
