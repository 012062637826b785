-- ===== src/Device.antt =====
-- The tables of devices of IotwareFW/oal/iw: iw_dev_sensor.c, iw_dev_net.c and iw_dev_led.c.
pub mod Strings
pub mod Table
pub mod Lookup
pub mod Forward
pub mod Info
pub mod Sensor
pub mod Net
pub mod Connection
pub mod Credentials
pub mod Led
pub mod Status
pub mod LowBattery
mod Tests
