-- ===== src/Dcfw/MsgX16.antt =====
-- AttributeRead and its acknowledgement: iw_fw_msg_id_x16.c and .h.
use io_tware.Common.{
  ℕ, ◌≡◌, Option, none, some, true, Bytes, Calloc, length, Exec, ok, undefined, arith,
}
use io_tware.Dcfw.Fixed.{Serialized}
use io_tware.Dcfw.Attributes.{CmAttributePayload, CmAttributeValuePayload}
use io_tware.Dcfw.Heads.{
  DataHead, TaskFields, data_head, task_fields, AckHead, ObjectFields, ack_head, object_fields,
}
use io_tware.Dcfw.Items.{plain_codec, values_codec}
use io_tware.Dcfw.Payload.{Payload, PayloadMsg, msg_serialize, payload_parse, msg_parse}
use io_tware.Dcfw.Payload.Laws.{MsgFits, msg_image, msg_serialize-image, msg_parse-image}

abbrev pub CmAttributeReadPayload : Type 0
CmAttributeReadPayload = Payload TaskFields CmAttributePayload

abbrev pub CmAttributeReadMsg : Type 0
CmAttributeReadMsg = PayloadMsg DataHead TaskFields CmAttributePayload

abbrev pub CmAttributeReadAckPayload : Type 0
CmAttributeReadAckPayload = Payload ObjectFields CmAttributeValuePayload

abbrev pub CmAttributeReadAckMsg : Type 0
CmAttributeReadAckMsg = PayloadMsg AckHead ObjectFields CmAttributeValuePayload

abbrev pub attribute_read : CmAttributeReadMsg
attribute_read = record {
  head = record {
    header = record { ack = 0; message_id = 0x16; dup = 0; qos = 1 };
    reserved = 0;
    length_field = 0;
  };
  payload = none;
}

abbrev pub attribute_read_ack : CmAttributeReadAckMsg
attribute_read_ack = record {
  head = record {
    header = record { ack = 1; message_id = 0x16; dup = 0; qos = 0; reserved = 0; return_code = 0 };
    reserved = 0;
    length_field = 0;
  };
  payload = none;
}

-- Only the first `memcpy` is guarded against a `calloc` that returned NULL.
unfoldable pub serialize : Calloc → CmAttributeReadMsg → Exec Serialized
unfolding msg_serialize
serialize = msg_serialize data_head task_fields (λ f. f.attr_count) plain_codec (λ _. undefined)

unfoldable pub parse_payload : Calloc → Bytes → ℕ → Exec (Option CmAttributeReadPayload)
unfolding payload_parse
parse_payload = payload_parse data_head task_fields (λ f. f.attr_count) plain_codec

unfoldable pub parse : Calloc → Bytes → ℕ → Exec (Option CmAttributeReadMsg)
unfolding msg_parse parse_payload
parse = msg_parse data_head task_fields (λ f. f.attr_count) plain_codec parse_payload

unfoldable pub ack_serialize : Calloc → CmAttributeReadAckMsg → Exec Serialized
unfolding msg_serialize
ack_serialize =
    msg_serialize ack_head object_fields (λ f. f.attr_count) values_codec
      (λ size. ok (record { size = size; buf = none }))

unfoldable pub ack_payload_parse : Calloc → Bytes → ℕ → Exec (Option CmAttributeReadAckPayload)
unfolding payload_parse
ack_payload_parse = payload_parse ack_head object_fields (λ f. f.attr_count) values_codec

unfoldable pub ack_parse : Calloc → Bytes → ℕ → Exec (Option CmAttributeReadAckMsg)
unfolding msg_parse ack_payload_parse
ack_parse = msg_parse ack_head object_fields (λ f. f.attr_count) values_codec ack_payload_parse

abbrev pub Fits : DataHead → CmAttributeReadPayload → Type 0
Fits = MsgFits data_head task_fields (λ f. f.attr_count) plain_codec

abbrev pub image : DataHead → CmAttributeReadPayload → Bytes
image = msg_image data_head task_fields (λ f. f.attr_count) plain_codec

-- A message whose numbers fit and whose item count is right survives the trip: its buffer has the
-- reported size and holds head, fields and items from end to end, with no access out of bounds, and
-- those bytes are parsed to the message. Every `calloc` succeeds.
pub attribute_read_roundtrip :
    (h : DataHead) (p : CmAttributeReadPayload) (calloc : Calloc)
    → ((i n : ℕ) → calloc i n ≡ true)
    → Fits h p
    → (serialize calloc (record { head = h; payload = some p })
        ≡ ok (record { size = length (image h p); buf = some (image h p) }))
      × (parse calloc (image h p) (length (image h p))
          ≡ ok (some (record { head = h; payload = some p })))
unfolding serialize parse
attribute_read_roundtrip h p calloc heap fits = (
  msg_serialize-image data_head task_fields (λ f. f.attr_count) plain_codec (omega arith) h p fits
      calloc heap (λ _. undefined),
  msg_parse-image data_head task_fields (λ f. f.attr_count) plain_codec (omega arith) h p fits
      calloc heap,
)

-- The same for the acknowledgement.
pub ack_roundtrip :
    (h : AckHead) (p : CmAttributeReadAckPayload) (calloc : Calloc)
    → ((i n : ℕ) → calloc i n ≡ true)
    → MsgFits ack_head object_fields (λ f. f.attr_count) values_codec h p
    → let bytes = msg_image ack_head object_fields (λ f. f.attr_count) values_codec h p in
      (ack_serialize calloc (record { head = h; payload = some p })
        ≡ ok (record { size = length bytes; buf = some bytes }))
      × (ack_parse calloc bytes (length bytes) ≡ ok (some (record { head = h; payload = some p })))
unfolding ack_serialize ack_parse
ack_roundtrip h p calloc heap fits = (
  msg_serialize-image ack_head object_fields (λ f. f.attr_count) values_codec (omega arith) h p fits
      calloc heap (λ size. ok (record { size = size; buf = none })),
  msg_parse-image ack_head object_fields (λ f. f.attr_count) values_codec (omega arith) h p fits
      calloc heap,
)
