-- ===== src/Dcfw/MsgX05.antt =====
-- CheckStatus and its acknowledgement: iw_fw_msg_id_x05.c and .h.
use io_tware.Common.{
  ℕ, ◌%◌, ◌/◌, ◌≤◌, ◌<◌, ◌≡◌, refl, Option, some, [], ◌∷◌, Bytes, AreBytes, Calloc, length, take,
  arith,
}
use io_tware.Dcfw.Layout.{
  Layout, CmFixedHeader, CmDefaultAckMsg, AckFits, ack_byte, load_ack, byte_2_6, byte_at,
}
use io_tware.Dcfw.Fixed.{
  Serialized, struct_serialize, struct_parse, cm_header_serialize, cm_header_parse, HeaderMsg,
  header_msg_parse,
}
use io_tware.Dcfw.Fixed.Laws.{struct_parse-serialize}

abbrev pub CmCheckStatusMsg : Type 0
CmCheckStatusMsg = HeaderMsg CmFixedHeader

pub record CmCheckStatusAckMsg : Type 0 where
  pub header : CmDefaultAckMsg
  pub reserved : ℕ
  pub length_field : ℕ
  pub status : ℕ
  pub wake_up_interval : ℕ

abbrev pub StatusFits : CmCheckStatusAckMsg → Type 0
StatusFits m =
    AckFits m.header
    × (m.reserved < 4)
    × (m.length_field < 64)
    × (m.status < 4)
    × (m.wake_up_interval < 64)

abbrev pub status_image : CmCheckStatusAckMsg → Bytes
status_image m =
    ack_byte m.header
    ∷ byte_2_6 m.header.reserved m.header.return_code
    ∷ byte_2_6 m.reserved m.length_field
    ∷ byte_2_6 m.status m.wake_up_interval
    ∷ []

abbrev pub status_load : Bytes → CmCheckStatusAckMsg
status_load bs = record {
  header = load_ack (byte_at bs 0) (byte_at bs 1);
  reserved = byte_at bs 2 % 4;
  length_field = byte_at bs 2 / 4 % 64;
  status = byte_at bs 3 % 4;
  wake_up_interval = byte_at bs 3 / 4 % 64;
}

pub status_load-image : (m : CmCheckStatusAckMsg) → StatusFits m → status_load (status_image m) ≡ m
status_load-image m f = ground arith

pub status_image-load :
    (bs : Bytes) → AreBytes bs → 4 ≤ length bs → status_image (status_load bs) ≡ take 4 bs
status_image-load [] h k = absurd (omega arith)
status_image-load (b ∷ []) h k = absurd (omega arith)
status_image-load (b ∷ c ∷ []) h k = absurd (omega arith)
status_image-load (b ∷ c ∷ d ∷ []) h k = absurd (omega arith)
status_image-load (b ∷ c ∷ d ∷ e ∷ bs) h k = ground arith

abbrev pub status_layout : Layout CmCheckStatusAckMsg
status_layout = record {
  size = 4;
  Fits = StatusFits;
  image = status_image;
  load = status_load;
  length-image = λ m. refl;
  load-image = status_load-image;
  image-load = status_image-load;
}

abbrev pub check_status : CmCheckStatusMsg
check_status = record { header = record { ack = 0; message_id = 0x05; dup = 0; qos = 1 } }

abbrev pub check_status_ack : CmCheckStatusAckMsg
check_status_ack = record {
  header = record { ack = 1; message_id = 0x05; dup = 0; qos = 0; reserved = 0; return_code = 0 };
  reserved = 0;
  length_field = 1;
  status = 0;
  wake_up_interval = 0;
}

unfoldable pub serialize : Calloc → CmCheckStatusMsg → Serialized
unfolding cm_header_serialize
serialize calloc msg = cm_header_serialize calloc msg.header

unfoldable pub parse : Bytes → ℕ → Option CmCheckStatusMsg
unfolding header_msg_parse cm_header_parse
parse = header_msg_parse cm_header_parse

unfoldable pub ack_serialize : Calloc → CmCheckStatusAckMsg → Serialized
unfolding struct_serialize
ack_serialize = struct_serialize status_layout

unfoldable pub ack_parse : Bytes → ℕ → Option CmCheckStatusAckMsg
unfolding struct_parse
ack_parse = struct_parse status_layout

-- A status acknowledgement survives the trip: what `ack_serialize` returns has the reported size
-- and is parsed to the message.
pub ack_parse-ack_serialize :
    (calloc : Calloc) (msg : CmCheckStatusAckMsg) (bs : Bytes)
    → StatusFits msg
    → (ack_serialize calloc msg).buf ≡ some bs
    → (length bs ≡ (ack_serialize calloc msg).size) × (ack_parse bs (length bs) ≡ some msg)
unfolding ack_serialize ack_parse
ack_parse-ack_serialize = struct_parse-serialize status_layout
