-- ===== src/Dcfw/Heads.antt =====
-- The structs before the pointers of the messages with a payload: iw_fw_msg_id_x03.h and
-- iw_fw_msg_id_x15.h to x18.h.
use io_tware.Common.{
  ℕ, ◌%◌, ◌/◌, ◌≤◌, ◌<◌, ◌≡◌, refl, [], ◌∷◌, Bytes, AreBytes, length, take, arith,
}
use io_tware.Dcfw.Layout.{
  Layout, CmFixedHeader, CmDefaultAckMsg, HeaderFits, AckFits, header_byte, load_header, ack_byte,
  load_ack, byte_2_6, byte_6_2, byte_at,
}

-- `header`, `reserved` and `length` of `struct CMMemberInfoMsg` and its likes.
pub record DataHead : Type 0 where
  pub header : CmFixedHeader
  pub reserved : ℕ
  pub length_field : ℕ

abbrev pub DataFits : DataHead → Type 0
DataFits m = HeaderFits m.header × (m.reserved < 4) × (m.length_field < 64)

abbrev pub data_image : DataHead → Bytes
data_image m = header_byte m.header ∷ byte_2_6 m.reserved m.length_field ∷ []

abbrev pub data_load : Bytes → DataHead
data_load bs = record {
  header = load_header (byte_at bs 0);
  reserved = byte_at bs 1 % 4;
  length_field = byte_at bs 1 / 4 % 64;
}

pub data_load-image : (m : DataHead) → DataFits m → data_load (data_image m) ≡ m
data_load-image m f = ground arith

pub data_image-load :
    (bs : Bytes) → AreBytes bs → 2 ≤ length bs → data_image (data_load bs) ≡ take 2 bs
data_image-load [] h k = absurd (omega arith)
data_image-load (b ∷ []) h k = absurd (omega arith)
data_image-load (b ∷ c ∷ bs) h k = ground arith

abbrev pub data_head : Layout DataHead
data_head = record {
  size = 2;
  Fits = DataFits;
  image = data_image;
  load = data_load;
  length-image = λ m. refl;
  load-image = data_load-image;
  image-load = data_image-load;
}

-- The same of `struct CMAttributeReadAckMsg`, behind a default acknowledgement.
pub record AckHead : Type 0 where
  pub header : CmDefaultAckMsg
  pub reserved : ℕ
  pub length_field : ℕ

abbrev pub AckHeadFits : AckHead → Type 0
AckHeadFits m = AckFits m.header × (m.reserved < 4) × (m.length_field < 64)

abbrev pub ack_head_image : AckHead → Bytes
ack_head_image m =
    ack_byte m.header
    ∷ byte_2_6 m.header.reserved m.header.return_code
    ∷ byte_2_6 m.reserved m.length_field
    ∷ []

abbrev pub ack_head_load : Bytes → AckHead
ack_head_load bs = record {
  header = load_ack (byte_at bs 0) (byte_at bs 1);
  reserved = byte_at bs 2 % 4;
  length_field = byte_at bs 2 / 4 % 64;
}

pub ack_head_load-image : (m : AckHead) → AckHeadFits m → ack_head_load (ack_head_image m) ≡ m
ack_head_load-image m f = ground arith

pub ack_head_image-load :
    (bs : Bytes) → AreBytes bs → 3 ≤ length bs → ack_head_image (ack_head_load bs) ≡ take 3 bs
ack_head_image-load [] h k = absurd (omega arith)
ack_head_image-load (b ∷ []) h k = absurd (omega arith)
ack_head_image-load (b ∷ c ∷ []) h k = absurd (omega arith)
ack_head_image-load (b ∷ c ∷ d ∷ bs) h k = ground arith

abbrev pub ack_head : Layout AckHead
ack_head = record {
  size = 3;
  Fits = AckHeadFits;
  image = ack_head_image;
  load = ack_head_load;
  length-image = λ m. refl;
  load-image = ack_head_load-image;
  image-load = ack_head_image-load;
}

-- `task_id`, `object_id` and `attr_count` of `struct CMMemberInfoPayload` and its likes.
pub record TaskFields : Type 0 where
  pub task_id : ℕ
  pub object_id : ℕ
  pub attr_count : ℕ

abbrev pub TaskFits : TaskFields → Type 0
TaskFits m = (m.task_id < 256) × (m.object_id < 64) × (m.attr_count < 4)

abbrev pub task_image : TaskFields → Bytes
task_image m = (m.task_id % 256) ∷ byte_6_2 m.object_id m.attr_count ∷ []

abbrev pub task_load : Bytes → TaskFields
task_load bs = record {
  task_id = byte_at bs 0 % 256;
  object_id = byte_at bs 1 % 64;
  attr_count = byte_at bs 1 / 64 % 4;
}

pub task_load-image : (m : TaskFields) → TaskFits m → task_load (task_image m) ≡ m
task_load-image m f = ground arith

pub task_image-load :
    (bs : Bytes) → AreBytes bs → 2 ≤ length bs → task_image (task_load bs) ≡ take 2 bs
task_image-load [] h k = absurd (omega arith)
task_image-load (b ∷ []) h k = absurd (omega arith)
task_image-load (b ∷ c ∷ bs) h k = ground arith

abbrev pub task_fields : Layout TaskFields
task_fields = record {
  size = 2;
  Fits = TaskFits;
  image = task_image;
  load = task_load;
  length-image = λ m. refl;
  load-image = task_load-image;
  image-load = task_image-load;
}

-- `object_id` and `attr_count` of `struct CMAttributeReadAckPayload`.
pub record ObjectFields : Type 0 where
  pub object_id : ℕ
  pub attr_count : ℕ

abbrev pub ObjectFits : ObjectFields → Type 0
ObjectFits m = (m.object_id < 64) × (m.attr_count < 4)

abbrev pub object_image : ObjectFields → Bytes
object_image m = byte_6_2 m.object_id m.attr_count ∷ []

abbrev pub object_load : Bytes → ObjectFields
object_load bs = record { object_id = byte_at bs 0 % 64; attr_count = byte_at bs 0 / 64 % 4 }

pub object_load-image : (m : ObjectFields) → ObjectFits m → object_load (object_image m) ≡ m
object_load-image m f = ground arith

pub object_image-load :
    (bs : Bytes) → AreBytes bs → 1 ≤ length bs → object_image (object_load bs) ≡ take 1 bs
object_image-load [] h k = absurd (omega arith)
object_image-load (b ∷ bs) h k = ground arith

abbrev pub object_fields : Layout ObjectFields
object_fields = record {
  size = 1;
  Fits = ObjectFits;
  image = object_image;
  load = object_load;
  length-image = λ m. refl;
  load-image = object_load-image;
  image-load = object_image-load;
}
