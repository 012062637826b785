-- ===== src/Oal.antt =====
-- IotwareFW/oal/iw: the parts of the OS abstraction layer that hold data of their own.
pub mod Fifo
pub mod Linked
pub mod Tests
