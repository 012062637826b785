-- ===== src/Dcfw/MsgX18.antt =====
-- TaskOutputData and its acknowledgement: iw_fw_msg_id_x18.c and .h.
use io_tware.Common.{ℕ, ◌≡◌, Option, none, some, true, Bytes, Calloc, length, Exec, ok, arith}
use io_tware.Dcfw.Layout.{CmDefaultAckMsg}
use io_tware.Dcfw.Fixed.{
  Serialized, cm_default_ack_serialize, cm_default_ack_parse, HeaderMsg, header_msg_parse,
}
use io_tware.Dcfw.Attributes.{CmAttributeValuePayload}
use io_tware.Dcfw.Heads.{DataHead, TaskFields, data_head, task_fields}
use io_tware.Dcfw.Items.{values_codec}
use io_tware.Dcfw.Payload.{Payload, PayloadMsg, msg_serialize, payload_parse, msg_parse}
use io_tware.Dcfw.Payload.Laws.{MsgFits, msg_image, msg_serialize-image, msg_parse-image}

abbrev pub CmTaskOutputDataPayload : Type 0
CmTaskOutputDataPayload = Payload TaskFields CmAttributeValuePayload

abbrev pub CmTaskOutputDataMsg : Type 0
CmTaskOutputDataMsg = PayloadMsg DataHead TaskFields CmAttributeValuePayload

abbrev pub CmTaskOutputDataAckMsg : Type 0
CmTaskOutputDataAckMsg = HeaderMsg CmDefaultAckMsg

abbrev pub task_output_data : CmTaskOutputDataMsg
task_output_data = record {
  head = record {
    header = record { ack = 0; message_id = 0x18; dup = 0; qos = 1 };
    reserved = 0;
    length_field = 0;
  };
  payload = none;
}

abbrev pub task_output_data_ack : CmTaskOutputDataAckMsg
task_output_data_ack = record {
  header = record { ack = 1; message_id = 0x18; dup = 0; qos = 0; reserved = 0; return_code = 0 };
}

unfoldable pub serialize : Calloc → CmTaskOutputDataMsg → Exec Serialized
unfolding msg_serialize
serialize =
    msg_serialize data_head task_fields (λ f. f.attr_count) values_codec
      (λ size. ok (record { size = size; buf = none }))

unfoldable pub parse_payload : Calloc → Bytes → ℕ → Exec (Option CmTaskOutputDataPayload)
unfolding payload_parse
parse_payload = payload_parse data_head task_fields (λ f. f.attr_count) values_codec

unfoldable pub parse : Calloc → Bytes → ℕ → Exec (Option CmTaskOutputDataMsg)
unfolding msg_parse parse_payload
parse = msg_parse data_head task_fields (λ f. f.attr_count) values_codec parse_payload

unfoldable pub ack_serialize : Calloc → CmTaskOutputDataAckMsg → Serialized
unfolding cm_default_ack_serialize
ack_serialize calloc msg = cm_default_ack_serialize calloc msg.header

unfoldable pub ack_parse : Bytes → ℕ → Option CmTaskOutputDataAckMsg
unfolding header_msg_parse cm_default_ack_parse
ack_parse = header_msg_parse cm_default_ack_parse

abbrev pub Fits : DataHead → CmTaskOutputDataPayload → Type 0
Fits = MsgFits data_head task_fields (λ f. f.attr_count) values_codec

abbrev pub image : DataHead → CmTaskOutputDataPayload → Bytes
image = msg_image data_head task_fields (λ f. f.attr_count) values_codec

-- A message whose numbers fit and whose item count is right survives the trip: its buffer has the
-- reported size and holds head, fields and items from end to end, with no access out of bounds, and
-- those bytes are parsed to the message. Every `calloc` succeeds.
pub task_output_data_roundtrip :
    (h : DataHead) (p : CmTaskOutputDataPayload) (calloc : Calloc)
    → ((i n : ℕ) → calloc i n ≡ true)
    → Fits h p
    → (serialize calloc (record { head = h; payload = some p })
        ≡ ok (record { size = length (image h p); buf = some (image h p) }))
      × (parse calloc (image h p) (length (image h p))
          ≡ ok (some (record { head = h; payload = some p })))
unfolding serialize parse
task_output_data_roundtrip h p calloc heap fits = (
  msg_serialize-image data_head task_fields (λ f. f.attr_count) values_codec (omega arith) h p fits
      calloc heap (λ size. ok (record { size = size; buf = none })),
  msg_parse-image data_head task_fields (λ f. f.attr_count) values_codec (omega arith) h p fits
      calloc heap,
)
