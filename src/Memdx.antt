-- ===== src/Memdx.antt =====
-- The key-value wire protocol, sdk/couchbase-core/src/memdx.
mod CodeExamples
pub mod OpCode
pub mod Status
pub mod HelloFeature
pub mod FrameCode
pub mod CodeTables
pub mod Error
pub mod ExtFrame
pub mod Crud
pub mod Magic
pub mod Packet
pub mod Codec
