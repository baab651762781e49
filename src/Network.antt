-- ===== src/Network.antt =====
-- The wire format and the node registry of network/protocol.py.
pub mod Protocol
pub mod Registry
