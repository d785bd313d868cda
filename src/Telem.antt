-- ===== src/Telem.antt =====
-- The telemetry framing of src/core/telem: envelope, serializer and byte-wise parser.
pub mod Generic
pub mod Serialize
pub mod Parser
mod Tests
