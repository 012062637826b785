-- ===== src/Dcfw/MsgX14.antt =====
-- TaskStop and its acknowledgement: iw_fw_msg_id_x14.c and .h.
use io_tware.Common.{ℕ, Option, Bytes, Calloc}
use io_tware.Dcfw.Layout.{CmDefaultAckMsg}
use io_tware.Dcfw.Fixed.{
  Serialized, struct_serialize, struct_parse, cm_default_ack_serialize, cm_default_ack_parse,
  HeaderMsg, header_msg_parse,
}
use io_tware.Dcfw.TasksMsg.{CmTasksMsg, tasks_layout}

abbrev pub CmTaskStopMsg : Type 0
CmTaskStopMsg = CmTasksMsg

abbrev pub CmTaskStopAckMsg : Type 0
CmTaskStopAckMsg = HeaderMsg CmDefaultAckMsg

-- `tasks` has no initialiser, so it is the null pointer.
abbrev pub task_stop : CmTaskStopMsg
task_stop = record {
  header = record { ack = 0; message_id = 0x14; dup = 0; qos = 1 };
  reserved = 0;
  length_field = 0;
  tasks = 0;
}

abbrev pub task_stop_ack : CmTaskStopAckMsg
task_stop_ack = record {
  header = record { ack = 1; message_id = 0x14; dup = 0; qos = 0; reserved = 0; return_code = 0 };
}

unfoldable pub serialize : Calloc → CmTaskStopMsg → Serialized
unfolding struct_serialize
serialize = struct_serialize tasks_layout

unfoldable pub parse : Bytes → ℕ → Option CmTaskStopMsg
unfolding struct_parse
parse = struct_parse tasks_layout

unfoldable pub ack_serialize : Calloc → CmTaskStopAckMsg → Serialized
unfolding cm_default_ack_serialize
ack_serialize calloc msg = cm_default_ack_serialize calloc msg.header

unfoldable pub ack_parse : Bytes → ℕ → Option CmTaskStopAckMsg
unfolding header_msg_parse cm_default_ack_parse
ack_parse = header_msg_parse cm_default_ack_parse
