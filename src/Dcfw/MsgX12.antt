-- ===== src/Dcfw/MsgX12.antt =====
-- TaskStopAll and its acknowledgement: iw_fw_msg_id_x12.c and .h.
use io_tware.Common.{ℕ, Option, Bytes, Calloc}
use io_tware.Dcfw.Layout.{CmFixedHeader, CmDefaultAckMsg}
use io_tware.Dcfw.Fixed.{
  Serialized, cm_header_serialize, cm_header_parse, cm_default_ack_serialize, cm_default_ack_parse,
  HeaderMsg, header_msg_parse,
}

abbrev pub CmTaskStopAllMsg : Type 0
CmTaskStopAllMsg = HeaderMsg CmFixedHeader

abbrev pub CmTaskStopAllAckMsg : Type 0
CmTaskStopAllAckMsg = HeaderMsg CmDefaultAckMsg

abbrev pub task_stop_all : CmTaskStopAllMsg
task_stop_all = record { header = record { ack = 0; message_id = 0x12; dup = 0; qos = 1 } }

abbrev pub task_stop_all_ack : CmTaskStopAllAckMsg
task_stop_all_ack = record {
  header = record { ack = 1; message_id = 0x12; dup = 0; qos = 0; reserved = 0; return_code = 0 };
}

unfoldable pub serialize : Calloc → CmTaskStopAllMsg → Serialized
unfolding cm_header_serialize
serialize calloc msg = cm_header_serialize calloc msg.header

unfoldable pub parse : Bytes → ℕ → Option CmTaskStopAllMsg
unfolding header_msg_parse cm_header_parse
parse = header_msg_parse cm_header_parse

unfoldable pub ack_serialize : Calloc → CmTaskStopAllAckMsg → Serialized
unfolding cm_default_ack_serialize
ack_serialize calloc msg = cm_default_ack_serialize calloc msg.header

unfoldable pub ack_parse : Bytes → ℕ → Option CmTaskStopAllAckMsg
unfolding header_msg_parse cm_default_ack_parse
ack_parse = header_msg_parse cm_default_ack_parse
