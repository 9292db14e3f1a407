-- ===== src/Msgsig.antt =====
-- pkg/msgsig: the signed envelopes of queue messages.
pub mod Envelope
pub mod Ops
pub mod Ring
pub mod Roundtrip
pub mod Safety
