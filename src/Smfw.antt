-- ===== src/Smfw.antt =====
-- IotwareFW/Microservice/SMFW/iw_fw_microservices.c: microservices and their tasks.
pub mod State
pub mod Links
pub mod Parameters
pub mod Values
pub mod Tasks
pub mod Connect
pub mod Lifecycle
pub mod BaseTasks
pub mod Registry
pub mod Tests
