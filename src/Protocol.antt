-- ===== src/Protocol.antt =====
-- pilotfish/protocol: the codecs of the messages, and the signed envelope.
pub mod Fields
pub mod Messages
pub mod Envelope
