-- ===== src/Dcfw/MsgX15.antt =====
-- AttributeWrite and its acknowledgement: iw_fw_msg_id_x15.c and .h.
use io_tware.Common.{
  ℕ, ◌≡◌, Option, none, some, true, Bytes, Calloc, length, Exec, ok, undefined, leb, le→leb, ◌++◌,
  if◌then◌else◌, arith,
}
use io_tware.Dcfw.Layout.{CmDefaultAckMsg}
use io_tware.Dcfw.Fixed.{
  Serialized, cm_default_ack_serialize, cm_default_ack_parse, HeaderMsg, header_msg_parse,
}
use io_tware.Dcfw.Attributes.{CmAttributeValuePayload}
use io_tware.Dcfw.Heads.{DataHead, TaskFields, data_head, task_fields}
use io_tware.Dcfw.Items.{values_codec}
use io_tware.Dcfw.Payload.{Payload, PayloadMsg, msg_serialize, payload_parse_fields, msg_parse}
use io_tware.Dcfw.Payload.Laws.{
  MsgFits, msg_image, msg_serialize-image, msg_parse-image_by, payload_parse_fields-image,
}

abbrev pub CmAttributeWritePayload : Type 0
CmAttributeWritePayload = Payload TaskFields CmAttributeValuePayload

abbrev pub CmAttributeWriteMsg : Type 0
CmAttributeWriteMsg = PayloadMsg DataHead TaskFields CmAttributeValuePayload

abbrev pub CmAttributeWriteAckMsg : Type 0
CmAttributeWriteAckMsg = HeaderMsg CmDefaultAckMsg

abbrev pub attribute_write : CmAttributeWriteMsg
attribute_write = record {
  head = record {
    header = record { ack = 0; message_id = 0x15; dup = 0; qos = 1 };
    reserved = 0;
    length_field = 0;
  };
  payload = none;
}

abbrev pub attribute_write_ack : CmAttributeWriteAckMsg
attribute_write_ack = record {
  header = record { ack = 1; message_id = 0x15; dup = 0; qos = 0; reserved = 0; return_code = 0 };
}

unfoldable pub serialize : Calloc → CmAttributeWriteMsg → Exec Serialized
unfolding msg_serialize
serialize =
    msg_serialize data_head task_fields (λ f. f.attr_count) values_codec
      (λ size. ok (record { size = size; buf = none }))

-- Bytes too few for the payload's fields make the function end without a `return`.
unfoldable pub parse_payload : Calloc → Bytes → ℕ → Exec (Option CmAttributeWritePayload)
unfolding payload_parse_fields
parse_payload calloc msg size =
    if leb 2 size
    then payload_parse_fields data_head task_fields (λ f. f.attr_count) values_codec calloc msg size
    else undefined

unfoldable pub parse : Calloc → Bytes → ℕ → Exec (Option CmAttributeWriteMsg)
unfolding msg_parse parse_payload
parse = msg_parse data_head task_fields (λ f. f.attr_count) values_codec parse_payload

unfoldable pub ack_serialize : Calloc → CmAttributeWriteAckMsg → Serialized
unfolding cm_default_ack_serialize
ack_serialize calloc msg = cm_default_ack_serialize calloc msg.header

unfoldable pub ack_parse : Bytes → ℕ → Option CmAttributeWriteAckMsg
unfolding header_msg_parse cm_default_ack_parse
ack_parse = header_msg_parse cm_default_ack_parse

abbrev pub Fits : DataHead → CmAttributeWritePayload → Type 0
Fits = MsgFits data_head task_fields (λ f. f.attr_count) values_codec

abbrev pub image : DataHead → CmAttributeWritePayload → Bytes
image = msg_image data_head task_fields (λ f. f.attr_count) values_codec

parse_payload-image :
    (h : DataHead) (p : CmAttributeWritePayload) (calloc : Calloc)
    → ((i n : ℕ) → calloc i n ≡ true)
    → Fits h p
    → let bytes = task_fields.image p.fields ++ values_codec.image p.items in
      parse_payload calloc bytes (length bytes) ≡ ok (some p)
unfolding parse_payload
parse_payload-image h p calloc heap fits =
    rw (le→leb 2 (length (task_fields.image p.fields ++ values_codec.image p.items)) (omega arith))
      (payload_parse_fields-image data_head task_fields (λ f. f.attr_count) values_codec
        (omega arith) h p fits calloc heap)

-- A message whose numbers fit and whose item count is right survives the trip: its buffer has the
-- reported size and holds head, fields and items from end to end, with no access out of bounds, and
-- those bytes are parsed to the message. Every `calloc` succeeds.
pub attribute_write_roundtrip :
    (h : DataHead) (p : CmAttributeWritePayload) (calloc : Calloc)
    → ((i n : ℕ) → calloc i n ≡ true)
    → Fits h p
    → (serialize calloc (record { head = h; payload = some p })
        ≡ ok (record { size = length (image h p); buf = some (image h p) }))
      × (parse calloc (image h p) (length (image h p))
          ≡ ok (some (record { head = h; payload = some p })))
unfolding serialize parse
attribute_write_roundtrip h p calloc heap fits = (
  msg_serialize-image data_head task_fields (λ f. f.attr_count) values_codec (omega arith) h p fits
      calloc heap (λ size. ok (record { size = size; buf = none })),
  msg_parse-image_by data_head task_fields (λ f. f.attr_count) values_codec (omega arith) h p fits
      calloc heap parse_payload (parse_payload-image h p calloc heap fits),
)
