-- ===== src/Sifw.antt =====
-- The lightweight messages by which a device talks to its server: IotwareFW/Microservice/SIFW.
pub mod Text
pub mod Object
pub mod Serialize
pub mod Wire
pub mod Parse
pub mod Dictionary
pub mod Faults
pub mod Numbers
pub mod Key
pub mod Build
pub mod Reception
pub mod Dispatch
pub mod Tests
