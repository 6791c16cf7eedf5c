-- ===== src/Cli.antt =====
-- The command line: what it schedules and what it prints of the results.
pub mod Enrichment
pub mod Measurement
pub mod Execution
