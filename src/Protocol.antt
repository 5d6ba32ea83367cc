-- ===== src/Protocol.antt =====
-- The command protocol: message magic, rolling code, and the framing of commands in a TCP stream.
pub mod Magic
pub mod Code
pub mod Frame
pub mod Send
mod Examples
