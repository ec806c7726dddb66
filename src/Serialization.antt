-- ===== src/Serialization.antt =====
-- utils/src/connection/serialization.c: buffers, fields, packages and their wire format.
mod Tests
pub mod Buffer
pub mod Capacity
pub mod Fields
pub mod Writes
pub mod Reads
pub mod Packages
pub mod Message
pub mod Codec
pub mod Sequence
pub mod Wire
pub mod RoundTrip
pub mod Safety
pub mod Sizes
