-- ===== src/Cdr.antt =====
-- osmo-msc-cdrenc: the encoder of call detail records.
pub mod Ber
pub mod Tbcd
mod Tests
