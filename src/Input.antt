-- ===== src/Input.antt =====
-- User input: the server that holds one request, and the client's delegation of replies.
pub mod Codec
pub mod RequestServer
pub mod Delegator
pub mod Remote
