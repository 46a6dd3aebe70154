-- ===== src/Vlr.antt =====
-- libvlr: the visitor location register. The subscriber record with its authentication tuples, new
-- TMSIs, and the state machines of authentication, of access requests and of location updates.
pub mod Subscr
pub mod Reject
pub mod Auth
pub mod AccessRequest
pub mod LocationUpdate
pub mod Tmsi
pub mod Sgs
