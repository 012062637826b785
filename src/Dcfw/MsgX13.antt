-- ===== src/Dcfw/MsgX13.antt =====
-- TaskRun and its acknowledgement: iw_fw_msg_id_x13.c and .h.
use io_tware.Common.{ℕ, Option, Bytes, Calloc}
use io_tware.Dcfw.Layout.{CmDefaultAckMsg}
use io_tware.Dcfw.Fixed.{
  Serialized, struct_serialize, struct_parse, cm_default_ack_serialize, cm_default_ack_parse,
  HeaderMsg, header_msg_parse,
}
use io_tware.Dcfw.TasksMsg.{CmTasksMsg, tasks_layout}

abbrev pub CmTaskRunMsg : Type 0
CmTaskRunMsg = CmTasksMsg

abbrev pub CmTaskRunAckMsg : Type 0
CmTaskRunAckMsg = HeaderMsg CmDefaultAckMsg

-- `tasks` has no initialiser, so it is the null pointer.
abbrev pub task_run : CmTaskRunMsg
task_run = record {
  header = record { ack = 0; message_id = 0x13; dup = 0; qos = 1 };
  reserved = 0;
  length_field = 0;
  tasks = 0;
}

abbrev pub task_run_ack : CmTaskRunAckMsg
task_run_ack = record {
  header = record { ack = 1; message_id = 0x13; dup = 0; qos = 0; reserved = 0; return_code = 0 };
}

unfoldable pub serialize : Calloc → CmTaskRunMsg → Serialized
unfolding struct_serialize
serialize = struct_serialize tasks_layout

unfoldable pub parse : Bytes → ℕ → Option CmTaskRunMsg
unfolding struct_parse
parse = struct_parse tasks_layout

unfoldable pub ack_serialize : Calloc → CmTaskRunAckMsg → Serialized
unfolding cm_default_ack_serialize
ack_serialize calloc msg = cm_default_ack_serialize calloc msg.header

unfoldable pub ack_parse : Bytes → ℕ → Option CmTaskRunAckMsg
unfolding header_msg_parse cm_default_ack_parse
ack_parse = header_msg_parse cm_default_ack_parse
