-- ===== src/Sandbox.antt =====
-- services/ray/sandbox: how the host and the runner of a sandbox talk.
pub mod Bytes
pub mod Framing
pub mod Text
pub mod Codec
pub mod Channel
pub mod Fanout
