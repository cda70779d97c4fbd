-- ===== src/Stream.antt =====
-- src/protocol_stream.rs: length-prefixed frames over an authenticated byte stream.
pub mod Frames
pub mod Serve
pub mod Reading
pub mod RoundTrip
pub mod Whole
pub mod Connection
