-- ===== src/Csd.antt =====
-- libmsc/csd_bs.c and libmsc/csd_filter.c: circuit switched data, its bearer services and their
-- selection.
pub mod BearerService
pub mod BsList
pub mod BearerCap
pub mod ChannelType
pub mod Filter
mod Tests
