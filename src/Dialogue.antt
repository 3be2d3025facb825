-- ===== src/Dialogue.antt =====
-- The two sides of a connection together: what one side sends is what the other side is asked.
pub mod Arguments
pub mod Opening
pub mod PublicKey
pub mod Requests
pub mod Signals
