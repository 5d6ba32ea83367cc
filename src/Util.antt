-- ===== src/Util.antt =====
-- libserver/util: conversions of dates and times, and the splitting of texts.
pub mod Time
pub mod Tokens
pub mod Scheduler
mod Examples
