-- ===== src/Client/HypoCompress.antt =====
-- lobby/hypoCompress.ts: a game as a short string for a URL
pub mod Text
pub mod Codec
pub mod Game
