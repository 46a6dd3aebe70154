-- ===== src/CallControl.antt =====
-- libmsc/gsm_04_08_cc.c: the call control. A handler is a function from the transaction to the
-- transaction; what it sends is recorded, newest first, in `log`.
pub mod Types
pub mod Release
pub mod FromMs
pub mod FromMncc
pub mod Told
pub mod Telling
pub mod Releasing
pub mod Supervised
pub mod Watching
pub mod Timing
pub mod Calls
pub mod Ending
pub mod Tests
