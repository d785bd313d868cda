-- ===== src/Frames.antt =====
-- The payloads of src/core/telem: an encoder, a decoder and a validator for each frame type.
-- An encoder gives the bytes that it writes; their number is what the C++ function returns.
-- A validator is given the length of a payload, and its bytes where it looks at them.
pub mod Ack
pub mod Clock
pub mod Science
pub mod Request
pub mod Storage
pub mod Reply
mod Tests
