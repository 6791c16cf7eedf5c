-- ===== src/Tests.antt =====
-- Tests, and the theorems at concrete inputs.
mod Crates
mod Net
mod Schema
mod Messages
mod Client
mod Threads
mod Server
mod Cli
mod Program
