-- ===== src/Structures.antt =====
-- The structures that the messages of libserver/network/command/proto share.
pub mod Goods
pub mod Character
pub mod Horse
pub mod Progress
pub mod Ranch
pub mod Options
pub mod RanchCharacter
pub mod Skills
pub mod RoundTrip
mod Examples
