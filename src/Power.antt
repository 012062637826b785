-- ===== src/Power.antt =====
-- The battery and the power service: IotwareFW/oal/iw/iw_dev_batt.c, iw_sys.c and
-- IotwareFW/Microservice/ROFW/service.c.
pub mod Battery
pub mod Status
pub mod Service
mod Tests
