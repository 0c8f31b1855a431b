-- ===== src/Client.antt =====
-- packages/client/src: the parts of the client that compute with games
pub mod HypoCompress
pub mod Replay
pub mod State
