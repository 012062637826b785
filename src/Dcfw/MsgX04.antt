-- ===== src/Dcfw/MsgX04.antt =====
-- SetDeviceMode and its acknowledgement: iw_fw_msg_id_x04.c and .h.
use io_tware.Common.{
  ℕ, ◌%◌, ◌/◌, ◌≤◌, ◌<◌, ◌≡◌, refl, Option, some, [], ◌∷◌, Bytes, AreBytes, Calloc, length, take,
  arith,
}
use io_tware.Dcfw.Layout.{
  Layout, CmFixedHeader, CmDefaultAckMsg, HeaderFits, header_byte, load_header, byte_2_6, byte_at,
}
use io_tware.Dcfw.Fixed.{
  Serialized, struct_serialize, struct_parse, cm_default_ack_serialize, cm_default_ack_parse,
  HeaderMsg, header_msg_parse,
}
use io_tware.Dcfw.Fixed.Laws.{struct_parse-serialize}

pub record CmSetDeviceModeMsg : Type 0 where
  pub header : CmFixedHeader
  pub reserved : ℕ
  pub length_field : ℕ
  pub mode : ℕ
  pub wake_up_interval : ℕ

abbrev pub CmSetDeviceModeAckMsg : Type 0
CmSetDeviceModeAckMsg = HeaderMsg CmDefaultAckMsg

abbrev pub DeviceModeFits : CmSetDeviceModeMsg → Type 0
DeviceModeFits m =
    HeaderFits m.header
    × (m.reserved < 4)
    × (m.length_field < 64)
    × (m.mode < 4)
    × (m.wake_up_interval < 64)

abbrev pub mode_image : CmSetDeviceModeMsg → Bytes
mode_image m =
    header_byte m.header
    ∷ byte_2_6 m.reserved m.length_field
    ∷ byte_2_6 m.mode m.wake_up_interval
    ∷ []

abbrev pub mode_load : Bytes → CmSetDeviceModeMsg
mode_load bs = record {
  header = load_header (byte_at bs 0);
  reserved = byte_at bs 1 % 4;
  length_field = byte_at bs 1 / 4 % 64;
  mode = byte_at bs 2 % 4;
  wake_up_interval = byte_at bs 2 / 4 % 64;
}

pub mode_load-image : (m : CmSetDeviceModeMsg) → DeviceModeFits m → mode_load (mode_image m) ≡ m
mode_load-image m f = ground arith

pub mode_image-load :
    (bs : Bytes) → AreBytes bs → 3 ≤ length bs → mode_image (mode_load bs) ≡ take 3 bs
mode_image-load [] h k = absurd (omega arith)
mode_image-load (b ∷ []) h k = absurd (omega arith)
mode_image-load (b ∷ c ∷ []) h k = absurd (omega arith)
mode_image-load (b ∷ c ∷ d ∷ bs) h k = ground arith

abbrev pub mode_layout : Layout CmSetDeviceModeMsg
mode_layout = record {
  size = 3;
  Fits = DeviceModeFits;
  image = mode_image;
  load = mode_load;
  length-image = λ m. refl;
  load-image = mode_load-image;
  image-load = mode_image-load;
}

abbrev pub set_device_mode : CmSetDeviceModeMsg
set_device_mode = record {
  header = record { ack = 0; message_id = 0x04; dup = 0; qos = 1 };
  reserved = 0;
  length_field = 1;
  mode = 0;
  wake_up_interval = 0;
}

abbrev pub set_device_mode_ack : CmSetDeviceModeAckMsg
set_device_mode_ack = record {
  header = record { ack = 1; message_id = 0x04; dup = 0; qos = 0; reserved = 0; return_code = 0 };
}

unfoldable pub serialize : Calloc → CmSetDeviceModeMsg → Serialized
unfolding struct_serialize
serialize = struct_serialize mode_layout

unfoldable pub parse : Bytes → ℕ → Option CmSetDeviceModeMsg
unfolding struct_parse
parse = struct_parse mode_layout

unfoldable pub ack_serialize : Calloc → CmSetDeviceModeAckMsg → Serialized
unfolding cm_default_ack_serialize
ack_serialize calloc msg = cm_default_ack_serialize calloc msg.header

unfoldable pub ack_parse : Bytes → ℕ → Option CmSetDeviceModeAckMsg
unfolding header_msg_parse cm_default_ack_parse
ack_parse = header_msg_parse cm_default_ack_parse

-- A mode message survives the trip: what `serialize` returns has the reported size and is parsed
-- to the message.
pub mode_parse-serialize :
    (calloc : Calloc) (msg : CmSetDeviceModeMsg) (bs : Bytes)
    → DeviceModeFits msg
    → (serialize calloc msg).buf ≡ some bs
    → (length bs ≡ (serialize calloc msg).size) × (parse bs (length bs) ≡ some msg)
unfolding serialize parse
mode_parse-serialize = struct_parse-serialize mode_layout
