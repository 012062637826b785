-- ===== src/Dcfw/MsgX02.antt =====
-- Connect and its acknowledgement: iw_fw_msg_id_x02.c and .h.
use io_tware.Common.{
  ℕ, ◌+◌, ◌*◌, ◌/◌, ◌%◌, ◌≤◌, ◌<◌, ◌≡◌, refl, Option, some, true, [], ◌∷◌, Bytes, AreBytes, Calloc,
  length, take, arith,
}
use io_tware.Dcfw.Layout.{
  Layout, CmFixedHeader, CmDefaultAckMsg, HeaderFits, header_byte, load_header, byte_2_6, byte_at,
}
use io_tware.Dcfw.Fixed.{
  Serialized, struct_serialize, struct_parse, cm_default_ack_serialize, cm_default_ack_parse,
  HeaderMsg, header_msg_parse,
}
use io_tware.Dcfw.Fixed.Laws.{struct_parse-serialize, struct_serialize-parse}

pub record CmConnectMsg : Type 0 where
  pub header : CmFixedHeader
  pub reserved : ℕ
  pub length_field : ℕ
  pub protocol_version : ℕ
  pub id_flag : ℕ
  pub pwd_flag : ℕ
  pub undefined_bits : ℕ
  pub keep_alive : ℕ

abbrev pub CmConnectAckMsg : Type 0
CmConnectAckMsg = HeaderMsg CmDefaultAckMsg

abbrev pub ConnectFits : CmConnectMsg → Type 0
ConnectFits m =
    HeaderFits m.header
    × (m.reserved < 4)
    × (m.length_field < 64)
    × (m.protocol_version < 16)
    × (m.id_flag < 2)
    × (m.pwd_flag < 2)
    × (m.undefined_bits < 4)
    × (m.keep_alive < 256)

abbrev pub connect_byte : CmConnectMsg → ℕ
connect_byte m =
    m.protocol_version % 16
    + 16 * (m.id_flag % 2)
    + 32 * (m.pwd_flag % 2)
    + 64 * (m.undefined_bits % 4)

abbrev pub connect_image : CmConnectMsg → Bytes
connect_image m =
    header_byte m.header
    ∷ byte_2_6 m.reserved m.length_field
    ∷ connect_byte m
    ∷ (m.keep_alive % 256)
    ∷ []

abbrev pub connect_load : Bytes → CmConnectMsg
connect_load bs = record {
  header = load_header (byte_at bs 0);
  reserved = byte_at bs 1 % 4;
  length_field = byte_at bs 1 / 4 % 64;
  protocol_version = byte_at bs 2 % 16;
  id_flag = byte_at bs 2 / 16 % 2;
  pwd_flag = byte_at bs 2 / 32 % 2;
  undefined_bits = byte_at bs 2 / 64 % 4;
  keep_alive = byte_at bs 3 % 256;
}

pub connect_load-image : (m : CmConnectMsg) → ConnectFits m → connect_load (connect_image m) ≡ m
connect_load-image m f = ground arith

pub connect_image-load :
    (bs : Bytes) → AreBytes bs → 4 ≤ length bs → connect_image (connect_load bs) ≡ take 4 bs
connect_image-load [] h k = absurd (omega arith)
connect_image-load (b ∷ []) h k = absurd (omega arith)
connect_image-load (b ∷ c ∷ []) h k = absurd (omega arith)
connect_image-load (b ∷ c ∷ d ∷ []) h k = absurd (omega arith)
connect_image-load (b ∷ c ∷ d ∷ e ∷ bs) h k = ground arith

abbrev pub connect_layout : Layout CmConnectMsg
connect_layout = record {
  size = 4;
  Fits = ConnectFits;
  image = connect_image;
  load = connect_load;
  length-image = λ m. refl;
  load-image = connect_load-image;
  image-load = connect_image-load;
}

-- `cmCONNECT` and `cmCONNECT_ACK`.
abbrev pub connect : CmConnectMsg
connect = record {
  header = record { ack = 0; message_id = 0x02; dup = 0; qos = 1 };
  reserved = 0;
  length_field = 0;
  protocol_version = 0;
  id_flag = 0;
  pwd_flag = 0;
  undefined_bits = 0;
  keep_alive = 0;
}

abbrev pub connect_ack : CmConnectAckMsg
connect_ack = record {
  header = record { ack = 1; message_id = 0x02; dup = 0; qos = 0; reserved = 0; return_code = 0 };
}

unfoldable pub serialize : Calloc → CmConnectMsg → Serialized
unfolding struct_serialize
serialize = struct_serialize connect_layout

unfoldable pub parse : Bytes → ℕ → Option CmConnectMsg
unfolding struct_parse
parse = struct_parse connect_layout

unfoldable pub ack_serialize : Calloc → CmConnectAckMsg → Serialized
unfolding cm_default_ack_serialize
ack_serialize calloc msg = cm_default_ack_serialize calloc msg.header

unfoldable pub ack_parse : Bytes → ℕ → Option CmConnectAckMsg
unfolding header_msg_parse cm_default_ack_parse
ack_parse = header_msg_parse cm_default_ack_parse

-- A connect message survives the trip: what `serialize` returns has the reported size and is
-- parsed to the message.
pub connect_parse-serialize :
    (calloc : Calloc) (msg : CmConnectMsg) (bs : Bytes)
    → ConnectFits msg
    → (serialize calloc msg).buf ≡ some bs
    → (length bs ≡ (serialize calloc msg).size) × (parse bs (length bs) ≡ some msg)
unfolding serialize parse
connect_parse-serialize = struct_parse-serialize connect_layout

-- Bytes that parse as a connect message are what serialising that message gives: the first four.
pub connect_serialize-parse :
    (bs : Bytes) (calloc : Calloc) (msg : CmConnectMsg)
    → AreBytes bs
    → parse bs (length bs) ≡ some msg
    → calloc 0 4 ≡ true
    → (serialize calloc msg).buf ≡ some (take 4 bs)
unfolding serialize parse
connect_serialize-parse = struct_serialize-parse connect_layout
