-- ===== src/Schema.antt =====
-- src/schema: the protobuf messages, the crate they rest on, and signed payloads.
pub mod Wire
pub mod Empty
pub mod Ack
pub mod TaskId
pub mod Metadata
pub mod Client
pub mod ClientList
pub mod Address
pub mod Ping
pub mod ScheduleTask
pub mod Task
pub mod PingPayload
pub mod PingResult
pub mod Result
pub mod TaskResult
pub mod Signed
pub mod Convert
pub mod Initialized
pub mod Display
