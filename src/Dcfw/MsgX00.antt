-- ===== src/Dcfw/MsgX00.antt =====
-- ServerAdvertise : iw_fw_msg_id_x00.c and .h.
use io_tware.Common.{ℕ, Option, Bytes, Calloc}
use io_tware.Dcfw.Layout.{CmFixedHeader}
use io_tware.Dcfw.Fixed.{
  Serialized, cm_header_serialize, cm_header_parse, HeaderMsg, header_msg_parse,
}

abbrev pub CmServerAdvertiseMsg : Type 0
CmServerAdvertiseMsg = HeaderMsg CmFixedHeader

abbrev pub server_advertise : CmServerAdvertiseMsg
server_advertise = record { header = record { ack = 0; message_id = 0x00; dup = 0; qos = 0 } }

unfoldable pub serialize : Calloc → CmServerAdvertiseMsg → Serialized
unfolding cm_header_serialize
serialize calloc msg = cm_header_serialize calloc msg.header

unfoldable pub parse : Bytes → ℕ → Option CmServerAdvertiseMsg
unfolding header_msg_parse cm_header_parse
parse = header_msg_parse cm_header_parse
