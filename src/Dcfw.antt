-- ===== src/Dcfw.antt =====
-- The distributed-collaboration messages, IotwareFW/Microservice/DCFW.
pub mod Layout
pub mod Fixed
pub mod Attributes
pub mod Items
pub mod Payload
pub mod Heads
pub mod TasksMsg
pub mod MsgX00
pub mod MsgX02
pub mod MsgX03
pub mod MsgX04
pub mod MsgX05
pub mod MsgX10
pub mod MsgX11
pub mod MsgX12
pub mod MsgX13
pub mod MsgX14
pub mod MsgX15
pub mod MsgX16
pub mod MsgX17
pub mod MsgX18
pub mod TaskData
pub mod Short
pub mod Faults
mod Tests
